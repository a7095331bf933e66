-- ===== src/Server/Sender/Served.antt =====
-- How soon the TX thread of `run_server_roundtrip` of src/timestamp_server.c serves a waiting request.
use trading_latency_benchmar.Prelude.{
  ℕ, zero, suc, ◌≤◌, ◌≡◌, refl, ◌∙◌, sym, ap, arith, max, min, Bool, ◌&&◌, List, [], ◌∷◌, ◌++◌,
  length, length-append, length-map, length-take, length-drop, take, drop, map, ltb, leb, inl, inr,
  Bool-cases,
}
use trading_latency_benchmar.Stats.Entry.{StatsConfig}
use trading_latency_benchmar.Server.Requests.{ReturnPacketRequest}
use trading_latency_benchmar.Server.Requests.Order.{IsQueue, waiting}
use trading_latency_benchmar.Server.Sender.{request_of, Shared, prepare}
use trading_latency_benchmar.Server.Sender.Rounds.Step.{
  Event, run, abstract_run, queue_packet, store_packet, send_round,
}
use trading_latency_benchmar.Server.Sender.Rounds.{accepted, run-Ran, run-accepted}

-- The rounds of the TX thread among the events.
unfoldable pub rounds_in : List Event → ℕ
rounds_in [] = 0
rounds_in (queue_packet r ∷ events) = rounds_in events
rounds_in (store_packet r ∷ events) = rounds_in events
rounds_in (send_round m times result ∷ events) = suc (rounds_in events)

-- Each round takes a request if one waits.
abstract_run-served :
    (capacity : ℕ) (events : List Event) (w : List ReturnPacketRequest)
    → min (rounds_in events) (length w) ≤ length (abstract_run capacity events w).0
unfolding abstract_run rounds_in
abstract_run-served capacity [] w = omega arith
abstract_run-served capacity (queue_packet r ∷ events) w =
    elim (Bool-cases (leb 8 (length r.packet) && ltb (length w) capacity)) [
      | inl room ↦ rw room (
          let rest = abstract_run-served capacity events (w ++ request_of r ∷ []) in
          omega (arith, rest, length-append w (request_of r ∷ [])))
      | inr no_room ↦ rw no_room (abstract_run-served capacity events w)
    ]
abstract_run-served capacity (store_packet r ∷ events) w = abstract_run-served capacity events w
abstract_run-served capacity (send_round m times result ∷ events) w =
    let n = max m 1 in
    let rest = abstract_run-served capacity events (drop n w) in
    omega (
      arith,
      rest,
      length-append (map prepare (take n w)) (abstract_run capacity events (drop n w)).0,
      length-map (take n w) prepare,
      length-take n w,
      length-drop n w,
    )

pub take-map :
    (n : ℕ) (xs : List ReturnPacketRequest) → take n (map prepare xs) ≡ map prepare (take n xs)
take-map zero xs = refl
take-map (suc n) [] = refl
take-map (suc n) (x ∷ xs) = ap (λ r. prepare x ∷ r) (take-map n xs)

take-prefix : {A : Type 0} (k : ℕ) (xs ys : List A) → k ≤ length xs → take k (xs ++ ys) ≡ take k xs
take-prefix zero xs ys h = refl
take-prefix (suc k) [] ys h = absurd (omega arith)
take-prefix (suc k) (x ∷ xs) ys h = ap (λ r. x ∷ r) (take-prefix k xs ys (omega arith))

-- In whatever order the two threads take effect, on a queue in order, and whatever packets arrive: once the
-- TX thread has had `k` rounds, the first `k` requests that waited have been given to the socket, in their
-- order and before all others.
pub run-served :
    (config : StatsConfig) (csv_on : Bool) (events : List Event) (s : Shared) (k : ℕ)
    → IsQueue s.queue
    → k ≤ rounds_in events
    → k ≤ length (waiting s.queue)
    → take k (run config csv_on events s).0 ≡ map prepare (take k (waiting s.queue))
run-served config csv_on events s k v rounds enough =
    let (out, t) = run config csv_on events s in
    let w = waiting s.queue in
    let new = accepted s.queue.size_mask events w in
    let served = abstract_run-served s.queue.size_mask events w in
    let long : k ≤ length out =
      omega (arith, served, ap length (run-Ran config csv_on events s v).offered) in
    sym (take-prefix k out (map prepare (waiting t.queue)) long)
    ∙ (ap (take k) (run-accepted config csv_on events s v)
        ∙ (take-map k (w ++ new) ∙ ap (map prepare) (take-prefix k w new enough)))
