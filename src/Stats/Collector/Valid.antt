-- ===== src/Stats/Collector/Valid.antt =====
-- The invariant of the collector: a mask of ones, a buffer of that size, both indices in range and
-- counters below 2^64; `stats_enqueue` and `create_stats_collector`.
use native.Mathlib.Nat.{mod-eq_of_lt, pow-le-pow_right}
use native.Mathlib.Decide.{ℕ_discrete, dec_lt}
use trading_latency_benchmar.Prelude.{
  ℕ, ◌+◌, ◌-◌, ◌*◌, ◌%◌, ◌^◌, ◌≤◌, ◌<◌, ◌≡◌, ◌≢◌, refl, ◌∙◌, sym, ap, ap₂, arith, none, some, List,
  [], ◌∷◌, ◌++◌, length, drop, set, replicate, length-set, length-replicate,
}
use trading_latency_benchmar.Prelude.Words.{pow-pos}
use trading_latency_benchmar.Ring.Index.{IsMask, next_index, index_distance}
use trading_latency_benchmar.Ring.Contents.{
  next_index-le, contents_push, contents_overwrite, contents_empty, length-contents, distance_full,
  distance-next_head, index_distance-le,
}
use trading_latency_benchmar.Ring.Segment.{segment}
use trading_latency_benchmar.Ring.Size.{
  next_power_of_2, next_power_of_2-least, next_power_of_2-overflow,
}
use trading_latency_benchmar.Stats.Entry.{StatsEntry, StatsMode, zero_entry}
use trading_latency_benchmar.Stats.Collector.{
  fresh_collector, StatsCollector, Allocator, success, create_stats_collector, store_entry,
  stats_enqueue,
}

pub record IsValid (s : StatsCollector) : Type 0 where
  pub ones : IsMask s.size_mask
  pub entries : List StatsEntry
  pub allocated : s.buffer ≡ some entries
  pub sized : length entries ≡ s.size_mask + 1
  pub head_in : s.head ≤ s.size_mask
  pub tail_in : s.tail ≤ s.size_mask
  pub capacity_is : s.capacity ≡ s.size_mask + 1
  pub total_in : s.total_entries < 2 ^ 64
  pub dropped_in : s.dropped_entries < 2 ^ 64

-- The entries from the tail up to the head, oldest first.
abbrev pub held : StatsCollector → List StatsEntry
held s = elim (s.buffer) [
  | none ↦ []
  | some buf ↦
      segment zero_entry (s.size_mask + 1) buf s.tail (index_distance s.size_mask s.head s.tail)
]

-- What a collector holds, once its buffer is known.
pub held-some :
    (s : StatsCollector) (buf : List StatsEntry)
    → s.buffer ≡ some buf
    → held s
      ≡ segment zero_entry (s.size_mask + 1) buf s.tail (index_distance s.size_mask s.head s.tail)
held-some s buf e = ground (arith)

-- How many entries `stats_enqueue` drops to make room: one, or none.
abbrev pub excess : StatsCollector → ℕ
excess s = length (held s) + 1 - s.size_mask

-- What `stats_enqueue` makes of a collector.
pub record Enqueued (s : StatsCollector) (e : StatsEntry) (t : StatsCollector) : Type 0 where
  pub valid : IsValid t
  pub same_size : t.size_mask ≡ s.size_mask
  pub holds : held t ≡ drop (excess s) (held s ++ e ∷ [])
  pub total : t.total_entries ≡ (s.total_entries + 1) % 2 ^ 64
  pub dropped : t.dropped_entries ≡ (s.dropped_entries + excess s) % 2 ^ 64

pub length-held :
    {s : StatsCollector} (v : IsValid s)
    → length (held s) ≡ index_distance s.size_mask s.head s.tail
length-held {s} v =
    ap length (held-some s v.entries v.allocated)
    ∙ length-contents v.ones zero_entry v.entries s.head s.tail

module _ {s : StatsCollector} (v : IsValid s) (e : StatsEntry) where
  abbrev next_head : ℕ
  next_head = next_index s.size_mask s.head

  abbrev stored : StatsCollector
  stored = store_entry s v.entries e

  -- What the code leaves where there is room, and where the oldest entry goes.
  abbrev added : StatsCollector
  added = record s {
    buffer = some (set v.entries s.head e);
    head = next_head;
    total_entries = (s.total_entries + 1) % 2 ^ 64;
  }

  abbrev overwritten : StatsCollector
  overwritten = record added {
    tail = next_index s.size_mask s.tail;
    dropped_entries = (s.dropped_entries + 1) % 2 ^ 64;
  }

  room-added : next_head ≢ s.tail → stored ≡ added
  unfolding store_entry
  room-added room = ground arith

  full-overwritten : next_head ≡ s.tail → stored ≡ overwritten
  unfolding store_entry
  full-overwritten full = ground arith

  added-IsValid : IsValid added
  added-IsValid = record {
    ones = v.ones;
    entries = set v.entries s.head e;
    allocated = refl;
    sized = length-set v.entries s.head e ∙ v.sized;
    head_in = next_index-le v.ones s.head;
    tail_in = v.tail_in;
    capacity_is = v.capacity_is;
    total_in = omega arith;
    dropped_in = v.dropped_in;
  }

  overwritten-IsValid : IsValid overwritten
  overwritten-IsValid = record {
    ones = v.ones;
    entries = set v.entries s.head e;
    allocated = refl;
    sized = length-set v.entries s.head e ∙ v.sized;
    head_in = next_index-le v.ones s.head;
    capacity_is = v.capacity_is;
    total_in = omega arith;
    tail_in = next_index-le v.ones s.tail;
    dropped_in = omega arith;
  }

  full-Enqueued : next_head ≡ s.tail → Enqueued s e overwritten
  full-Enqueued full =
      let one : excess s ≡ 1 =
        omega (arith, length-held v, distance_full v.ones s.head s.tail v.head_in v.tail_in full) in
      record {
        valid = overwritten-IsValid;
        same_size = refl;
        holds =
            contents_overwrite v.ones zero_entry v.entries s.head s.tail e (omega (arith, v.sized))
              v.head_in v.tail_in full
            ∙ sym (ap₂ (λ k c. drop k (c ++ e ∷ [])) one (held-some s v.entries v.allocated));
        total = refl;
        dropped = ap (λ k. (s.dropped_entries + k) % 2 ^ 64) (sym one);
      }

  room-Enqueued : next_head ≢ s.tail → Enqueued s e added
  room-Enqueued room =
      let zero_more : excess s ≡ 0 = omega (
        arith,
        length-held v,
        distance-next_head v.ones s.head s.tail v.head_in v.tail_in room,
        index_distance-le v.ones next_head s.tail v.tail_in,
      ) in
      record {
        valid = added-IsValid;
        same_size = refl;
        holds =
            contents_push v.ones zero_entry v.entries s.head s.tail e (omega (arith, v.sized))
              v.head_in v.tail_in room
            ∙ sym (ap₂ (λ k c. drop k (c ++ e ∷ [])) zero_more (held-some s v.entries v.allocated));
        total = refl;
        dropped = sym (mod-eq_of_lt v.dropped_in) ∙ ap (λ k. k % 2 ^ 64) (omega (arith, zero_more));
      }

-- `stats_enqueue` on a valid collector succeeds and keeps the invariant; the new entry goes behind
-- the held ones and the oldest makes room for it if `size_mask` entries were held, which alone
-- counts as a drop.
pub stats_enqueue-Enqueued :
    {s : StatsCollector} (v : IsValid s) (e : StatsEntry)
    → (t : StatsCollector) × (stats_enqueue (some s) (some e) ≡ (success, some t)) × Enqueued s e t
unfolding stats_enqueue
stats_enqueue-Enqueued {s} v e = elim (ℕ_discrete (next_index s.size_mask s.head) s.tail) [
  | yes full ↦
      (overwritten v e, rw (v.allocated, full-overwritten v e full), full-Enqueued v e full)
  | no room ↦ (added v e, rw (v.allocated, room-added v e room), room-Enqueued v e room)
]

-- What a collector is when created.
pub record Created (size : ℕ) (s : StatsCollector) : Type 0 where
  pub valid : IsValid s
  pub empty : held s ≡ []
  pub enough : size ≤ s.capacity
  pub not_too_large : s.capacity < 2 * size

-- What a successful creation says of the size and the collector.
created_facts :
    (alloc : Allocator) (size : ℕ) (mode : StatsMode) {s : StatsCollector}
    → create_stats_collector alloc size mode ≡ some s
    → (size ≢ 0) × (next_power_of_2 size ≢ 0) × (s ≡ fresh_collector (next_power_of_2 size) mode)
unfolding create_stats_collector
created_facts alloc size mode h = (ground arith, ground arith, ground arith)

fresh_collector-Created :
    (size w : ℕ) (mode : StatsMode)
    → w ≤ 31
    → size ≤ 2 ^ w
    → 2 ^ w < 2 * size
    → Created size (fresh_collector (2 ^ w) mode)
fresh_collector-Created size w mode h fits least =
    let small : 2 ^ w ≤ 2 ^ 31 = pow-le-pow_right (omega arith) {i = w} {j = 31} h in
    let mask_is : (2 ^ w + 2 ^ 32 - 1) % 2 ^ 32 ≡ 2 ^ w - 1 = omega (arith, pow-pos w) in
    let ones : IsMask (fresh_collector (2 ^ w) mode).size_mask = record {
      width = w;
      wide = omega arith;
      ones = mask_is;
    } in
    record {
      valid = record {
        ones = ones;
        entries = replicate (2 ^ w) zero_entry;
        allocated = refl;
        sized = length-replicate (2 ^ w) zero_entry ∙ omega (arith, pow-pos w);
        head_in = omega arith;
        tail_in = omega arith;
        capacity_is = omega (arith, pow-pos w);
        total_in = omega arith;
        dropped_in = omega arith;
      };
      empty = contents_empty ones zero_entry (replicate (2 ^ w) zero_entry) 0 (omega arith);
      enough = fits;
      not_too_large = least;
    }

-- A created collector is valid and empty; its capacity is a power of two, no less than what was asked for
-- and less than twice of it. (A size is a uint32_t.)
pub create_stats_collector-Created :
    (alloc : Allocator) (size : ℕ) (mode : StatsMode) {s : StatsCollector}
    → size < 2 ^ 32
    → create_stats_collector alloc size mode ≡ some s
    → Created size s
create_stats_collector-Created alloc size mode {s} word h =
    let (some_size, no_overflow, is_fresh) = created_facts alloc size mode h in
    elim (dec_lt (2 ^ 31) size) [
      | yes big ↦ absurd (no_overflow (next_power_of_2-overflow size big word))
      | no fits ↦
          let (w, found, le, fit, least) = next_power_of_2-least size (omega arith) (omega arith) in
          rw (is_fresh, found) (fresh_collector-Created size w mode le fit least)
    ]
