-- ===== src/Server/Requests.antt =====
-- `ReturnPacketRequest` and `ReturnPacketQueue` of src/timestamp_server.c. The RX thread adds at the tail
-- and the TX thread takes at the head. The mutex and the condition variables of the structure are set up
-- and destroyed, and never used in between.
pub mod Order
pub mod Created
use trading_latency_benchmar.Prelude.{
  ℕ, zero, suc, ◌-◌, Bool, true, false, ◌||◌, not, Option, none, some, List, [], ◌∷◌, set, get_or,
  replicate, ◌==◌, if◌then◌else◌, Bytes,
}
use trading_latency_benchmar.Ring.Index.{next_index}
use trading_latency_benchmar.Ring.Size.{is_pow2}

-- `ReturnPacketRequest`, with the address and the port of `return_addr`.
pub record ReturnPacketRequest : Type 0 where
  pub seq_num : ℕ
  pub return_ip : ℕ
  pub return_port : ℕ
  pub packet_data : Bytes
  pub packet_size : ℕ
  pub original_client_src_port : ℕ

abbrev pub no_request : ReturnPacketRequest
no_request = record {
  seq_num = 0;
  return_ip = 0;
  return_port = 0;
  packet_data = replicate 8 0;
  packet_size = 0;
  original_client_src_port = 0;
}

pub record ReturnPacketQueue : Type 0 where
  pub requests : List ReturnPacketRequest
  pub head : ℕ
  pub tail : ℕ
  pub size_mask : ℕ

-- The first two arguments say whether the two allocations succeed. What they leave in the array is
-- never read before it is written.
unfoldable pub create_return_packet_queue : Bool → Bool → ℕ → Option ReturnPacketQueue
create_return_packet_queue control array size =
    let actual = if size == 0 || not (is_pow2 size) then 4096 else size in
    if not control
    then none
    else if not array
    then none
    else some (record {
      requests = replicate actual no_request;
      head = 0;
      tail = 0;
      size_mask = actual - 1;
    })

unfoldable pub enqueue_return_packet_request :
    ReturnPacketQueue → ReturnPacketRequest → Bool × ReturnPacketQueue
enqueue_return_packet_request queue req =
    let next_tail = next_index queue.size_mask queue.tail in
    if next_tail == queue.head
    then (false, queue)
    else (true, record queue { requests = set queue.requests queue.tail req; tail = next_tail })

unfoldable pub dequeue_return_packet_request :
    ReturnPacketQueue → Option ReturnPacketRequest × ReturnPacketQueue
dequeue_return_packet_request queue = if queue.head == queue.tail then (none, queue) else (
  some (get_or queue.requests queue.head no_request),
  record queue { head = next_index queue.size_mask queue.head },
)

-- A request before those that the further rounds take; the loop ends where there was none.
abbrev pub add_taken :
    Option ReturnPacketRequest × ReturnPacketQueue
    → List ReturnPacketRequest × ReturnPacketQueue
    → List ReturnPacketRequest × ReturnPacketQueue
add_taken (none, after) rest = ([], after)
add_taken (some req, after) (further, end) = (req ∷ further, end)

-- The requests that were taken, and the queue after them.
unfoldable pub dequeue_return_packet_batch :
    ℕ → ReturnPacketQueue → List ReturnPacketRequest × ReturnPacketQueue
dequeue_return_packet_batch zero queue = ([], queue)
dequeue_return_packet_batch (suc batch_size) queue =
    let first = dequeue_return_packet_request queue in
    add_taken first (dequeue_return_packet_batch batch_size (first.1))
