-- ===== src/Server/Roundtrip.antt =====
-- The loop of `run_server_roundtrip` of src/timestamp_server.c beside that of `tx_thread_func`.
use mathlib.Core.List.{Sublist}
use mathlib.Core.List.Sublist
use trading_latency_benchmar.Prelude.{
  ℕ, zero, suc, true, ◌+◌, ◌≤◌, ◌≡◌, refl, ◌∙◌, sym, ap, subst, arith, max, Bool, List, [], ◌∷◌,
  ◌++◌, length, length-append, length-drop, take, drop, map, ltb, leb, if◌then◌else◌, inl, inr,
  Bool-cases,
}
use trading_latency_benchmar.Stats.Entry.{StatsConfig}
use trading_latency_benchmar.Timing.{Limits, Instant, live_rounds}
use trading_latency_benchmar.Server.Requests.{ReturnPacketRequest}
use trading_latency_benchmar.Server.Requests.Order.{IsQueue, waiting}
use trading_latency_benchmar.Server.Sender.{Received, request_of, Shared, prepare}
use trading_latency_benchmar.Server.Sender.Rounds.Step.{
  Event, run, queue_packet, store_packet, send_round,
}
use trading_latency_benchmar.Server.Sender.Rounds.{accepted, run-accepted}
use trading_latency_benchmar.Server.Sender.Served.{take-map}
use trading_latency_benchmar.Server.Oneway.{Polled, packet, nothing_yet, poll_failed, packets_of}

-- The effects of the bodies of the loop, for what `recvmsg` gives in each: an error ends it.
unfoldable pub poll_events : List Polled → List Event
poll_events [] = []
poll_events (packet r ∷ polled) = queue_packet r ∷ store_packet r ∷ poll_events polled
poll_events (nothing_yet ∷ polled) = poll_events polled
poll_events (poll_failed ∷ polled) = []

-- The effects of the loop from its start to its end.
unfoldable pub run_server_roundtrip : Limits → ℕ → List (Instant × Polled) → List Event
unfolding poll_events live_rounds
run_server_roundtrip limits cycles timed =
    poll_events
      (live_rounds limits (record { loop_counter = 0; last_time_check_cycles = cycles }) timed)

-- Those of some events that are the RX thread's.
unfoldable pub received_among : List Event → List Event
received_among [] = []
received_among (queue_packet r ∷ events) = queue_packet r ∷ received_among events
received_among (store_packet r ∷ events) = store_packet r ∷ received_among events
received_among (send_round m times result ∷ events) = received_among events

-- The requests that some packets ask for.
pub requests_for : List Received → List ReturnPacketRequest
requests_for [] = []
requests_for (r ∷ rs) =
    let rest = requests_for rs in if leb 8 (length r.packet) then request_of r ∷ rest else rest

queued : List Event → List Received
queued [] = []
queued (queue_packet r ∷ events) = r ∷ queued events
queued (store_packet r ∷ events) = queued events
queued (send_round m times result ∷ events) = queued events

queued-received_among : (events : List Event) → queued (received_among events) ≡ queued events
unfolding received_among queued
queued-received_among [] = refl
queued-received_among (queue_packet r ∷ events) = ap (λ l. r ∷ l) (queued-received_among events)
queued-received_among (store_packet r ∷ events) = queued-received_among events
queued-received_among (send_round m times result ∷ events) = queued-received_among events

queued-poll_events : (polled : List Polled) → queued (poll_events polled) ≡ packets_of polled
unfolding poll_events packets_of queued
queued-poll_events [] = refl
queued-poll_events (packet r ∷ polled) = ap (λ l. r ∷ l) (queued-poll_events polled)
queued-poll_events (nothing_yet ∷ polled) = queued-poll_events polled
queued-poll_events (poll_failed ∷ polled) = refl

module _ (capacity : ℕ) where
  accepted-Sublist :
      (events : List Event) (w : List ReturnPacketRequest)
      → Sublist
          (map prepare (accepted capacity events w))
          (map prepare (requests_for (queued events)))
  unfolding accepted requests_for queued
  accepted-Sublist [] w = Sublist.refl []
  accepted-Sublist (queue_packet r ∷ events) w = elim (Bool-cases (leb 8 (length r.packet))) [
    | inl long ↦ elim (Bool-cases (ltb (length w) capacity)) [
      | inl room ↦
          rw (long, room)
            (Sublist.cons-cons (prepare (request_of r))
              (accepted-Sublist events (w ++ request_of r ∷ [])))
      | inr full ↦
          rw (long, full) (Sublist.cons (prepare (request_of r)) (accepted-Sublist events w))
    ]
    | inr short ↦ rw short (accepted-Sublist events w)
  ]
  accepted-Sublist (store_packet r ∷ events) w = accepted-Sublist events w
  accepted-Sublist (send_round m times result ∷ events) w =
      accepted-Sublist events (drop (max m 1) w)

  accepted-first :
      (k : ℕ) (events : List Event) (w : List ReturnPacketRequest)
      → length w + k ≤ capacity
      → take k (accepted capacity events w) ≡ take k (requests_for (queued events))
  unfolding accepted requests_for queued
  accepted-first zero events w free = refl
  accepted-first (suc k) [] w free = refl
  accepted-first (suc k) (queue_packet r ∷ events) w free =
      elim (Bool-cases (leb 8 (length r.packet))) [
        | inl long ↦
            let room : ltb (length w) capacity ≡ true = ground (arith, free) in
            let rest =
              accepted-first k events (w ++ request_of r ∷ [])
                (omega (arith, free, length-append w (request_of r ∷ []))) in
            rw (long, room) (ap (λ l. request_of r ∷ l) rest)
        | inr short ↦ rw short (accepted-first (suc k) events w free)
      ]
  accepted-first (suc k) (store_packet r ∷ events) w free = accepted-first (suc k) events w free
  accepted-first (suc k) (send_round m times result ∷ events) w free =
      accepted-first (suc k) events (drop (max m 1) w)
        (omega (arith, free, length-drop (max m 1) w))

-- From an empty queue in order, with the effects of the loop in any order beside the rounds of the TX
-- thread: the packets given to the socket, followed by those for the requests that still wait, are among
-- those that the received packets of at least eight bytes ask for, in the order of their arrival, each
-- at most once; and the first of them, as many as the queue has room for, are all there.
pub run_server_roundtrip-answers :
    (config : StatsConfig) (csv_on : Bool) (limits : Limits) (cycles : ℕ)
    (timed : List (Instant × Polled)) (events : List Event) (s : Shared)
    → IsQueue s.queue
    → waiting s.queue ≡ []
    → received_among events ≡ run_server_roundtrip limits cycles timed
    → let (out, t) = run config csv_on events s in
      let given = out ++ map prepare (waiting t.queue) in
      let reached =
        live_rounds limits (record { loop_counter = 0; last_time_check_cycles = cycles }) timed in
      let answers = map prepare (requests_for (packets_of reached)) in
      Sublist given answers × (take s.queue.size_mask given ≡ take s.queue.size_mask answers)
unfolding run_server_roundtrip
run_server_roundtrip-answers config csv_on limits cycles timed events s v empty these =
    let (out, t) = run config csv_on events s in
    let n = s.queue.size_mask in
    let reached =
      live_rounds limits (record { loop_counter = 0; last_time_check_cycles = cycles }) timed in
    let packets : queued events ≡ packets_of reached =
      sym (queued-received_among events) ∙ ap queued these ∙ queued-poll_events reached in
    let given : out ++ map prepare (waiting t.queue) ≡ map prepare (accepted n events []) =
      run-accepted config csv_on events s v
      ∙ ap (λ w. map prepare (w ++ accepted n events w)) empty in
    subst
      (λ all.
        Sublist all (map prepare (requests_for (packets_of reached)))
        × (take n all ≡ take n (map prepare (requests_for (packets_of reached)))))
      (sym given)
      (subst
        (λ rs.
          Sublist (map prepare (accepted n events [])) (map prepare (requests_for rs))
          × (take n (map prepare (accepted n events [])) ≡ take n (map prepare (requests_for rs))))
        packets
        (
          accepted-Sublist n events [],
          take-map n (accepted n events [])
              ∙ (ap (map prepare) (accepted-first n n events [] (omega arith))
                  ∙ sym (take-map n (requests_for (queued events)))),
        ))
