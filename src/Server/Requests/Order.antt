-- ===== src/Server/Requests/Order.antt =====
-- The order of the requests in `ReturnPacketQueue` of src/timestamp_server.c.
use trading_latency_benchmar.Prelude.{
  ℕ, zero, suc, ◌+◌, ◌≤◌, ◌≡◌, refl, ◌∙◌, sym, ap, arith, Bool, true, false, ltb, List, [], ◌∷◌,
  ◌++◌, length, length-set, get_or, take, drop, ◌==◌, if◌then◌else◌, inl, inr, none, some, ◌≢◌,
}
use trading_latency_benchmar.Ring.Index.{IsMask, next_index, index_distance}
use trading_latency_benchmar.Ring.Segment.{segment}
use trading_latency_benchmar.Ring.Contents.{next_index-le}
use trading_latency_benchmar.Ring.Ends.{push_cases, pop_cases}
use trading_latency_benchmar.Server.Requests.{
  ReturnPacketRequest, ReturnPacketQueue, no_request, enqueue_return_packet_request,
  dequeue_return_packet_request, dequeue_return_packet_batch,
}

-- A queue as it is created, at any later time.
pub record IsQueue (q : ReturnPacketQueue) : Type 0 where
  pub ones : IsMask q.size_mask
  pub sized : length q.requests ≡ q.size_mask + 1
  pub head_in : q.head ≤ q.size_mask
  pub tail_in : q.tail ≤ q.size_mask

-- The requests from the head up to the tail, oldest first.
abbrev pub waiting : ReturnPacketQueue → List ReturnPacketRequest
waiting q =
    segment no_request (q.size_mask + 1) q.requests q.head
      (index_distance q.size_mask q.tail q.head)

-- What an enqueue makes of a queue: the request waits as the last if there is room.
pub record Enqueued (q : ReturnPacketQueue) (req : ReturnPacketRequest) (told : Bool)
    (t : ReturnPacketQueue) : Type 0 where
  pub valid : IsQueue t
  pub same_size : t.size_mask ≡ q.size_mask
  pub told_room : told ≡ ltb (length (waiting q)) q.size_mask
  pub holds : waiting t ≡ (if told then waiting q ++ req ∷ [] else waiting q)

pub enqueue-Enqueued :
    {q : ReturnPacketQueue} (v : IsQueue q) (req : ReturnPacketRequest)
    → Enqueued q req (enqueue_return_packet_request q req).0 (enqueue_return_packet_request q req).1
unfolding enqueue_return_packet_request
enqueue-Enqueued {q} v req =
    elim (push_cases v.ones no_request q.requests q.tail q.head v.tail_in v.head_in req
      (omega (arith, v.sized))) [
        | inl (full, no_room) ↦
            let test : next_index q.size_mask q.tail == q.head ≡ true = ground (arith, full) in
            rw test (record { valid = v; same_size = refl; told_room = sym no_room; holds = refl })
        | inr (open_place, room, pushed) ↦
            let test : next_index q.size_mask q.tail == q.head ≡ false =
              ground (arith, open_place) in
            rw test (record {
              valid = record {
                ones = v.ones;
                sized = length-set q.requests q.tail req ∙ v.sized;
                head_in = v.head_in;
                tail_in = next_index-le v.ones q.tail;
              };
              same_size = refl;
              told_room = sym room;
              holds = pushed;
            })
      ]

-- What a batch makes of a queue.
pub record Taken (n : ℕ) (q : ReturnPacketQueue) (batch : List ReturnPacketRequest)
    (t : ReturnPacketQueue) : Type 0 where
  pub valid : IsQueue t
  pub same_size : t.size_mask ≡ q.size_mask
  pub taken : batch ≡ take n (waiting q)
  pub holds : waiting t ≡ drop n (waiting q)

without_head-IsQueue :
    {q : ReturnPacketQueue}
    → IsQueue q
    → IsQueue (record q { head = next_index q.size_mask q.head })
without_head-IsQueue {q} v = record {
  ones = v.ones;
  sized = v.sized;
  head_in = next_index-le v.ones q.head;
  tail_in = v.tail_in;
}

dequeue-none :
    (q : ReturnPacketQueue) → q.head ≡ q.tail → dequeue_return_packet_request q ≡ (none, q)
unfolding dequeue_return_packet_request
dequeue-none q nothing = ground arith

dequeue-some :
    (q : ReturnPacketQueue)
    → q.head ≢ q.tail
    → dequeue_return_packet_request q ≡ (
      some (get_or q.requests q.head no_request),
      record q { head = next_index q.size_mask q.head },
    )
unfolding dequeue_return_packet_request
dequeue-some q something = ground arith

-- On a queue in order `dequeue_return_packet_batch` takes the first `batch_size` waiting requests, or
-- all if there are fewer, and leaves the others waiting.
pub dequeue_batch-Taken :
    (n : ℕ) {q : ReturnPacketQueue}
    → IsQueue q
    → Taken n q (dequeue_return_packet_batch n q).0 (dequeue_return_packet_batch n q).1
unfolding dequeue_return_packet_batch
dequeue_batch-Taken zero v = record { valid = v; same_size = refl; taken = refl; holds = refl }
dequeue_batch-Taken (suc n) {q} v =
    elim (pop_cases v.ones no_request q.requests q.tail q.head v.tail_in v.head_in) [
      | inl (nothing, none_waiting) ↦ rw (dequeue-none q nothing) (record {
        valid = v;
        same_size = refl;
        taken = sym (ap (take (suc n)) none_waiting);
        holds = none_waiting ∙ sym (ap (drop (suc n)) none_waiting);
      })
      | inr (something, first) ↦
          let rest = dequeue_batch-Taken n (without_head-IsQueue v) in
          rw (dequeue-some q something) (record {
            valid = rest.valid;
            same_size = rest.same_size;
            taken =
                ap (λ r. get_or q.requests q.head no_request ∷ r) rest.taken
                ∙ sym (ap (take (suc n)) first);
            holds = rest.holds ∙ sym (ap (drop (suc n)) first);
          })
    ]
