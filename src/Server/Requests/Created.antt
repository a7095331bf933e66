-- ===== src/Server/Requests/Created.antt =====
-- `create_return_packet_queue` of src/timestamp_server.c, for every size it can be given.
use trading_latency_benchmar.Prelude.{
  ℕ, ◌+◌, ◌-◌, ◌^◌, ◌≤◌, ◌<◌, ◌≡◌, refl, ◌∙◌, ap, arith, Bool, ◌||◌, ◌&&◌, not, none, some, [],
  length-replicate, replicate, ◌==◌, if◌then◌else◌, inl, inr, Bool-cases,
}
use trading_latency_benchmar.Prelude.Words.{pow-pos}
use trading_latency_benchmar.Ring.Index.{IsMask}
use trading_latency_benchmar.Ring.Size.{is_pow2, is_pow2-pow, exponent_lt}
use trading_latency_benchmar.Ring.Contents.{contents_empty}
use trading_latency_benchmar.Server.Requests.{
  ReturnPacketQueue, no_request, create_return_packet_queue,
}
use trading_latency_benchmar.Server.Requests.Order.{IsQueue, waiting}

-- A new queue of `size` places.
pub record Created (size : ℕ) (q : ReturnPacketQueue) : Type 0 where
  pub valid : IsQueue q
  pub empty : waiting q ≡ []
  pub capacity : q.size_mask + 1 ≡ size

fresh : ℕ → ReturnPacketQueue
fresh size = record {
  requests = replicate size no_request;
  head = 0;
  tail = 0;
  size_mask = size - 1;
}

fresh-Created : (w : ℕ) → w ≤ 32 → Created (2 ^ w) (fresh (2 ^ w))
unfolding fresh
fresh-Created w wide =
    let ones : IsMask (2 ^ w - 1) = record { width = w; wide = wide; ones = refl } in
    record {
      valid = record {
        ones = ones;
        sized = length-replicate (2 ^ w) no_request ∙ omega (arith, pow-pos w);
        head_in = omega arith;
        tail_in = omega arith;
      };
      empty = contents_empty ones no_request (replicate (2 ^ w) no_request) 0 (omega arith);
      capacity = omega (arith, pow-pos w);
    }

-- The size that is taken.
abbrev pub taken_size : ℕ → ℕ
taken_size size = if size == 0 || not (is_pow2 size) then 4096 else size

taken_size-pow : (size : ℕ) → size < 2 ^ 32 → (w : ℕ) × (taken_size size ≡ 2 ^ w) × (w ≤ 32)
taken_size-pow size word = elim (Bool-cases (size == 0 || not (is_pow2 size))) [
  | inl replaced ↦ (12, ap (λ (b : Bool). if b then 4096 else size) replaced, omega arith)
  | inr kept ↦
      let (w, e) = is_pow2-pow size (ground (arith, kept)) (ground (arith, kept)) in
      let small : w < 32 = exponent_lt w 32 (omega arith) in
      (w, ap (λ (b : Bool). if b then 4096 else size) kept ∙ e, omega arith)
]

-- For every size of 32 bits the queue that is created is in order and empty; it has `size` places if that
-- is a power of two, else 4096. Without memory for the queue or its array there is none.
pub create_return_packet_queue-Created :
    (control array : Bool) (size : ℕ)
    → size < 2 ^ 32
    → (q : ReturnPacketQueue) × (create_return_packet_queue control array size
        ≡ (if control && array then some q else none))
      × Created (taken_size size) q
unfolding create_return_packet_queue fresh
create_return_packet_queue-Created control array size word =
    let (w, e, wide) = taken_size-pow size word in
    (fresh (taken_size size), ground arith, rw e (fresh-Created w wide))
