-- ===== src/Server/Sender/Rounds/Step.antt =====
-- The steps of the RX and the TX thread of src/timestamp_server.c, and those of a list of waiting requests.
use native.Mathlib.Decide.{dec_lt}
use trading_latency_benchmar.Prelude.{
  ℕ, ◌≤◌, ◌≡◌, refl, ◌∙◌, sym, ap, arith, max, Bool, ◌&&◌, List, [], ◌∷◌, ◌++◌, length, take, drop,
  map, ltb, leb, if◌then◌else◌, inl, inr, ◌⊎◌, take-ge, drop-ge, Bool-cases, subst,
}
use trading_latency_benchmar.Ring.Index.{index_distance}
use trading_latency_benchmar.Ring.Contents.{length-contents}
use trading_latency_benchmar.Stats.Entry.{StatsConfig}
use trading_latency_benchmar.Server.Requests.{
  ReturnPacketRequest, ReturnPacketQueue, no_request, dequeue_return_packet_batch,
}
use trading_latency_benchmar.Server.Requests.Order.{
  IsQueue, waiting, enqueue-Enqueued, dequeue_batch-Taken,
}
use trading_latency_benchmar.Server.Sender.{
  Received, request_of, Shared, receive_queue, receive_store, target_batch_size, Packet, prepare,
  SendResult, correlate, correlate_all, send_batch, tx_round,
}

-- What the threads do, in the order in which it takes effect. The RX thread does the two parts of its
-- work on a packet one after the other; rounds of the TX thread can come before, between and after.
pub data Event : Type 0 where
  queue_packet : Received → Event
  store_packet : Received → Event
  send_round : ℕ → List ℕ → SendResult → Event

module _ (config : StatsConfig) (csv_on : Bool) where
  -- The packets that an event gives to the socket, and the state after it.
  abbrev pub step : Event → Shared → List Packet × Shared
  step (queue_packet r) s = ([], receive_queue r s)
  step (store_packet r) s = ([], receive_store config r s)
  step (send_round max_batch_size times result) s =
      tx_round config csv_on max_batch_size times result s

  unfoldable pub run : List Event → Shared → List Packet × Shared
  run [] s = ([], s)
  run (event ∷ events) s =
      let (out, t) = step event s in let (further, end) = run events t in (out ++ further, end)

-- The same on a list of the waiting requests that takes fewer than `capacity`.
abbrev pub abstract_step :
    ℕ → Event → List ReturnPacketRequest → List Packet × List ReturnPacketRequest
abstract_step capacity (queue_packet r) w =
    ([], if leb 8 (length r.packet) && ltb (length w) capacity then w ++ request_of r ∷ [] else w)
abstract_step capacity (store_packet r) w = ([], w)
abstract_step capacity (send_round max_batch_size times result) w =
    (map prepare (take (max max_batch_size 1) w), drop (max max_batch_size 1) w)

unfoldable pub abstract_run :
    ℕ → List Event → List ReturnPacketRequest → List Packet × List ReturnPacketRequest
abstract_run capacity [] w = ([], w)
abstract_run capacity (event ∷ events) w =
    let (out, v) = abstract_step capacity event w in
    let (further, end) = abstract_run capacity events v in (out ++ further, end)

module _ (max_batch_size : ℕ) {q : ReturnPacketQueue} (v : IsQueue q) where
  depth : index_distance q.size_mask q.tail q.head ≡ length (waiting q)
  depth = sym (length-contents v.ones no_request q.requests q.tail q.head)

  -- The batch size is the limit, or no request is left behind.
  batch_cases :
      (target_batch_size max_batch_size q ≡ max max_batch_size 1)
      ⊎ ((length (waiting q) ≤ target_batch_size max_batch_size q)
          × (length (waiting q) ≤ max max_batch_size 1))
  unfolding target_batch_size
  batch_cases = elim (dec_lt (length (waiting q)) (max max_batch_size 1)) [
    | yes few ↦ inr (ground (arith, depth), omega arith)
    | no many ↦ inl (ground (arith, depth))
  ]

  batch-take :
      take (target_batch_size max_batch_size q) (waiting q)
      ≡ take (max max_batch_size 1) (waiting q)
  batch-take = elim batch_cases [
    | inl same ↦ ap (λ n. take n (waiting q)) same
    | inr (all, all') ↦ take-ge _ (waiting q) all ∙ sym (take-ge _ (waiting q) all')
  ]

  batch-drop :
      drop (target_batch_size max_batch_size q) (waiting q)
      ≡ drop (max max_batch_size 1) (waiting q)
  batch-drop = elim batch_cases [
    | inl same ↦ ap (λ n. drop n (waiting q)) same
    | inr (all, all') ↦ drop-ge _ (waiting q) all ∙ sym (drop-ge _ (waiting q) all')
  ]

-- That a concrete step does the abstract one, on the queue of a state.
pub record Stepped (s : Shared) (abstract : List Packet × List ReturnPacketRequest)
    (out : List Packet) (t : Shared) : Type 0 where
  pub valid : IsQueue t.queue
  pub same_size : t.queue.size_mask ≡ s.queue.size_mask
  pub offered : out ≡ abstract.0
  pub left : waiting t.queue ≡ abstract.1

-- The loop over the sent packets leaves the queue.
correlate_all-queue :
    (config : StatsConfig) (csv_on : Bool) (reqs : List ReturnPacketRequest) (times : List ℕ)
    (s : Shared)
    → (correlate_all config csv_on reqs times s).queue ≡ s.queue
unfolding correlate_all correlate
correlate_all-queue config csv_on [] times s = refl
correlate_all-queue config csv_on (req ∷ reqs) [] s = refl
correlate_all-queue config csv_on (req ∷ reqs) (time ∷ times) s =
    correlate_all-queue config csv_on reqs times (correlate config csv_on req time s)

send_batch-queue :
    (config : StatsConfig) (csv_on : Bool) (batch : List ReturnPacketRequest) (times : List ℕ)
    (result : SendResult) (s : Shared)
    → (send_batch config csv_on batch times result s).queue ≡ s.queue
unfolding send_batch
send_batch-queue config csv_on [] times result s = refl
send_batch-queue config csv_on (req ∷ reqs) times (SendResult.sent n) s =
    correlate_all-queue config csv_on _ times _
send_batch-queue config csv_on (req ∷ reqs) times SendResult.would_block s = refl
send_batch-queue config csv_on (req ∷ reqs) times (SendResult.fallback n) s = refl

tx_round-queue :
    (config : StatsConfig) (csv_on : Bool) (max_batch_size : ℕ) (times : List ℕ)
    (result : SendResult) (s : Shared)
    → (tx_round config csv_on max_batch_size times result s).1.queue
      ≡ (dequeue_return_packet_batch (target_batch_size max_batch_size s.queue) s.queue).1
unfolding tx_round
tx_round-queue config csv_on m times result s = send_batch-queue config csv_on _ times result _

tx_round-offered :
    (config : StatsConfig) (csv_on : Bool) (max_batch_size : ℕ) (times : List ℕ)
    (result : SendResult) (s : Shared)
    → (tx_round config csv_on max_batch_size times result s).0
      ≡ map prepare
          (dequeue_return_packet_batch (target_batch_size max_batch_size s.queue) s.queue).0
unfolding tx_round
tx_round-offered config csv_on m times result s = refl

module _ (config : StatsConfig) (csv_on : Bool) where
  pub step-Stepped :
      (event : Event) (s : Shared)
      → IsQueue s.queue
      → Stepped s
          (abstract_step s.queue.size_mask event (waiting s.queue))
          (step config csv_on event s).0
          (step config csv_on event s).1
  unfolding receive_queue receive_store
  step-Stepped (queue_packet r) s v = elim (Bool-cases (leb 8 (length r.packet))) [
    | inr short ↦ rw short (record { valid = v; same_size = refl; offered = refl; left = refl })
    | inl long ↦
        let e = enqueue-Enqueued v (request_of r) in
        rw long (record {
          valid = e.valid;
          same_size = e.same_size;
          offered = refl;
          left =
              e.holds
              ∙ ap
                  (λ (b : Bool).
                    if b then waiting s.queue ++ request_of r ∷ [] else waiting s.queue)
                  e.told_room;
        })
  ]
  step-Stepped (store_packet r) s v = record {
    valid = v;
    same_size = refl;
    offered = refl;
    left = refl;
  }
  step-Stepped (send_round m times result) s v =
      let e = dequeue_batch-Taken (target_batch_size m s.queue) v in
      let same = tx_round-queue config csv_on m times result s in
      record {
        valid = subst IsQueue (sym same) e.valid;
        same_size = ap (λ q. q.size_mask) same ∙ e.same_size;
        offered =
            tx_round-offered config csv_on m times result s
            ∙ ap (map prepare) (e.taken ∙ batch-take m v);
        left = ap waiting same ∙ (e.holds ∙ batch-drop m v);
      }
