-- ===== src/Server/Sender/Rounds.antt =====
-- Runs of the RX and the TX thread of `run_server_roundtrip` of src/timestamp_server.c over the queue,
-- against a first-in first-out list of bounded length.
pub mod Step
use native.Mathlib.Decide.{dec_lt}
use trading_latency_benchmar.Prelude.{
  ℕ, ◌≤◌, ◌≡◌, refl, ◌∙◌, sym, ap, ap₂, arith, max, Bool, ◌&&◌, List, [], ◌∷◌, ◌++◌, append_assoc,
  append-nil, length, take, drop, take-append-drop, map, ltb, leb, if◌then◌else◌, inl, inr, ◌⊎◌,
  take-ge, drop-ge, Bool-cases, subst,
}
use trading_latency_benchmar.Ring.Index.{index_distance}
use trading_latency_benchmar.Ring.Contents.{length-contents}
use trading_latency_benchmar.Stats.Entry.{StatsConfig}
use trading_latency_benchmar.Server.Requests.{
  ReturnPacketRequest, ReturnPacketQueue, no_request, dequeue_return_packet_batch,
}
use trading_latency_benchmar.Server.Requests.Order.{
  IsQueue, waiting, enqueue-Enqueued, dequeue_batch-Taken,
}
use trading_latency_benchmar.Server.Sender.{
  Received, request_of, Shared, receive_queue, receive_store, target_batch_size, Packet, prepare,
  SendResult, correlate, correlate_all, send_batch, tx_round,
}
use trading_latency_benchmar.Server.Sender.Rounds.Step.{
  Event, step, run, abstract_step, abstract_run, step-Stepped, queue_packet, store_packet,
  send_round,
}

-- What a run leaves.
pub record Ran (abstract : List Packet × List ReturnPacketRequest) (out : List Packet) (t : Shared)
    : Type 0 where
  pub valid : IsQueue t.queue
  pub offered : out ≡ abstract.0
  pub left : waiting t.queue ≡ abstract.1

module _ (config : StatsConfig) (csv_on : Bool) where
  -- In whatever order the two threads take effect, on a queue in order: the packets that are given to the
  -- socket, and the requests that still wait, are those of a list that takes a request for each packet of
  -- at least eight bytes while fewer than `size_mask` wait, and from which each round gives the first
  -- `max_batch_size` to the socket, or all if there are fewer. The queue stays in order.
  pub run-Ran :
      (events : List Event) (s : Shared)
      → IsQueue s.queue
      → Ran
          (abstract_run s.queue.size_mask events (waiting s.queue))
          (run config csv_on events s).0
          (run config csv_on events s).1
  unfolding run abstract_run
  run-Ran [] s v = record { valid = v; offered = refl; left = refl }
  run-Ran (event ∷ events) s v =
      let one = step-Stepped config csv_on event s v in
      let t = (step config csv_on event s).1 in
      let rest = run-Ran events t one.valid in
      let w = (abstract_step s.queue.size_mask event (waiting s.queue)).1 in
      let same : abstract_run t.queue.size_mask events (waiting t.queue)
          ≡ abstract_run s.queue.size_mask events w =
        ap₂ (λ m l. abstract_run m events l) one.same_size one.left in
      record {
        valid = rest.valid;
        offered = ap₂ ◌++◌ one.offered (rest.offered ∙ ap (λ r. r.0) same);
        left = rest.left ∙ ap (λ r. r.1) same;
      }

-- The requests that a list with `capacity` accepts during the events.
unfoldable pub accepted : ℕ → List Event → List ReturnPacketRequest → List ReturnPacketRequest
accepted capacity [] w = []
accepted capacity (queue_packet r ∷ events) w =
    let v = (abstract_step capacity (queue_packet r) w).1 in
    let rest = accepted capacity events v in
    if leb 8 (length r.packet) && ltb (length w) capacity then request_of r ∷ rest else rest
accepted capacity (store_packet r ∷ events) w = accepted capacity events w
accepted capacity (send_round m times result ∷ events) w =
    accepted capacity events (drop (max m 1) w)

map-append :
    (xs ys : List ReturnPacketRequest) → map prepare (xs ++ ys) ≡ map prepare xs ++ map prepare ys
map-append [] ys = refl
map-append (x ∷ xs) ys = ap (λ r. prepare x ∷ r) (map-append xs ys)

abstract_run-order :
    (capacity : ℕ) (events : List Event) (w : List ReturnPacketRequest)
    → (abstract_run capacity events w).0 ++ map prepare (abstract_run capacity events w).1
      ≡ map prepare (w ++ accepted capacity events w)
unfolding abstract_run accepted
abstract_run-order capacity [] w = ap (map prepare) (sym (append-nil w))
abstract_run-order capacity (queue_packet r ∷ events) w =
    elim (Bool-cases (leb 8 (length r.packet) && ltb (length w) capacity)) [
      | inl room ↦ rw room (
          abstract_run-order capacity events (w ++ request_of r ∷ [])
          ∙ ap (map prepare) (append_assoc w (request_of r ∷ []) _))
      | inr no_room ↦ rw no_room (abstract_run-order capacity events w)
    ]
abstract_run-order capacity (store_packet r ∷ events) w = abstract_run-order capacity events w
abstract_run-order capacity (send_round m times result ∷ events) w =
    let n = max m 1 in
    let rest = accepted capacity events (drop n w) in
    append_assoc (map prepare (take n w)) _ _
    ∙ (ap (λ r. map prepare (take n w) ++ r) (abstract_run-order capacity events (drop n w))
        ∙ (sym (map-append (take n w) (drop n w ++ rest))
            ∙ ap (map prepare) (
                sym (append_assoc (take n w) (drop n w) rest)
                ∙ ap (λ l. l ++ rest) (take-append-drop n w))))

module _ (config : StatsConfig) (csv_on : Bool) where
  -- In whatever order the two threads take effect, on a queue in order: the packets that are given to the
  -- socket, followed by those for the requests that still wait, are those for the requests that waited
  -- before, followed by those for the packets whose request found room. None is doubled or overtaken.
  pub run-accepted :
      (events : List Event) (s : Shared)
      → IsQueue s.queue
      → (run config csv_on events s).0 ++ map prepare (waiting (run config csv_on events s).1.queue)
        ≡ map prepare (waiting s.queue ++ accepted s.queue.size_mask events (waiting s.queue))
  run-accepted events s v =
      let r = run-Ran config csv_on events s v in
      ap₂ (λ out w. out ++ map prepare w) r.offered r.left
      ∙ abstract_run-order s.queue.size_mask events (waiting s.queue)
