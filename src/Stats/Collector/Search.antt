-- ===== src/Stats/Collector/Search.antt =====
-- The three searches of the `update_stats_buffer_with_...` functions of src/timestamp_common.c.
use Prim.Native.Nat.{bit_and}
use native.Mathlib.Nat.{add-mul-mod_self_left}
use trading_latency_benchmar.Prelude.{
  ℕ, zero, suc, ◌+◌, ◌-◌, ◌*◌, ◌%◌, ◌^◌, ◌≤◌, ◌<◌, ◌≡◌, ◌≢◌, refl, ◌∙◌, sym, ap, ap₂, arith, some,
  List, [], ◌∷◌, ◌++◌, length, Bool, true, false, ◌||◌, Bool-cases, inl, inr, ◌==◌, if◌then◌else◌,
  get_or, get_or-set_ne, length-set,
}
use trading_latency_benchmar.Prelude.Words.{bit_and-mask32, pow_split}
use trading_latency_benchmar.Ring.Index.{IsMask, index_distance, mask-size}
use trading_latency_benchmar.Ring.Segment.{segment, segment-set_end, place-ne}
use trading_latency_benchmar.Ring.Contents.{distance_cases, index_distance-le}
use trading_latency_benchmar.Stats.Entry.{StatsEntry, StatsConfig, zero_entry}
use trading_latency_benchmar.Stats.Collector.{StatsCollector, search_backwards, update_matching}
use trading_latency_benchmar.Stats.Collector.Valid.{IsValid, held, held-some}

abbrev pub has_seq : ℕ → List StatsEntry → Bool
has_seq seq [] = false
has_seq seq (x ∷ xs) = x.seq_num == seq || has_seq seq xs

-- The specification: the last entry of the sequence number is changed, if there is one.
abbrev pub change_newest : (StatsEntry → StatsEntry) → ℕ → List StatsEntry → List StatsEntry
change_newest change seq [] = []
change_newest change seq (x ∷ xs) =
    if has_seq seq xs
    then x ∷ change_newest change seq xs
    else if x.seq_num == seq
    then change x ∷ xs
    else x ∷ xs

has_seq-append_one :
    (seq : ℕ) (xs : List StatsEntry) (y : StatsEntry)
    → has_seq seq (xs ++ y ∷ []) ≡ (has_seq seq xs || y.seq_num == seq)
has_seq-append_one seq [] y = ground arith
has_seq-append_one seq (x ∷ xs) y = ground (arith, has_seq-append_one seq xs y)

pub change_newest-hit :
    (change : StatsEntry → StatsEntry) (seq : ℕ) (xs : List StatsEntry) (y : StatsEntry)
    → (y.seq_num == seq) ≡ true
    → change_newest change seq (xs ++ y ∷ []) ≡ xs ++ change y ∷ []
change_newest-hit change seq [] y h = ground arith
change_newest-hit change seq (x ∷ xs) y h =
    ground (arith, has_seq-append_one seq xs y, change_newest-hit change seq xs y h)

change_newest-miss :
    (change : StatsEntry → StatsEntry) (seq : ℕ) (xs : List StatsEntry) (y : StatsEntry)
    → (y.seq_num == seq) ≡ false
    → change_newest change seq (xs ++ y ∷ []) ≡ change_newest change seq xs ++ y ∷ []
change_newest-miss change seq [] y h = ground arith
change_newest-miss change seq (x ∷ xs) y h =
    ground (arith, has_seq-append_one seq xs y, change_newest-miss change seq xs y h)

-- The index of round `i` is the place of the entry that is `i` from the newest.
module _ {mask : ℕ} (m : IsMask mask) (head tail : ℕ) (hh : head ≤ mask) (ht : tail ≤ mask) where
  searched_rounds :
      (i k : ℕ)
      → suc k + i ≡ index_distance mask head tail
      → (r : ℕ) × (head + 2 * 2 ^ 32 - 1 - i ≡ (tail + k) + (mask + 1) * r)
  searched_rounds i k e =
      let n = mask + 1 in
      let (c, whole) = pow_split (32 - m.width) m.width 32 (omega (arith, m.wide)) in
      let two : 2 * 2 ^ 32 ≡ n * (2 * c + 2) = rw (mask-size m) (omega (arith, whole)) in
      elim (distance_cases m head tail hh ht) [
        | inl (ord, far) ↦ (2 * c + 2, omega arith)
        | inr (ord, far) ↦ (2 * c + 1, omega arith)
      ]

  place_of_rounds :
      (x k r : ℕ)
      → x ≡ (tail + k) + (mask + 1) * r
      → bit_and (x % 2 ^ 32) mask ≡ (tail + k) % (mask + 1)
  place_of_rounds x k r e =
      let n = 2 ^ m.width in
      ap (λ z. bit_and (x % 2 ^ 32) z) m.ones
      ∙ (bit_and-mask32 m.width x m.wide
          ∙ (ap₂ ◌%◌ e (sym (mask-size m)) ∙ add-mul-mod_self_left (tail + k) (mask + 1) r))

  searched_place :
      (i k : ℕ)
      → suc k + i ≡ index_distance mask head tail
      → bit_and ((head + 2 * 2 ^ 32 - 1 - i) % 2 ^ 32) mask ≡ (tail + k) % (mask + 1)
  searched_place i k e =
      let (r, far) = searched_rounds i k e in place_of_rounds (head + 2 * 2 ^ 32 - 1 - i) k r far

  module _ (change : StatsEntry → StatsEntry) (seq : ℕ) where
    abbrev searched : List StatsEntry → ℕ → ℕ → List StatsEntry
    searched buf i rounds = search_backwards change seq mask head buf i rounds

    -- What the search makes of a buffer when `k` places from the tail on are left to look at.
    record Searched (buf : List StatsEntry) (k : ℕ) (out : List StatsEntry) : Type 0 where
      inside :
          segment zero_entry (mask + 1) out tail k
          ≡ change_newest change seq (segment zero_entry (mask + 1) buf tail k)
      outside :
          (j : ℕ)
          → k ≤ j
          → j < mask + 1
          → get_or out ((tail + j) % (mask + 1)) zero_entry
            ≡ get_or buf ((tail + j) % (mask + 1)) zero_entry
      sized : length out ≡ length buf

    search-Searched :
        (buf : List StatsEntry) (k i : ℕ)
        → mask + 1 ≤ length buf
        → k + i ≡ index_distance mask head tail
        → Searched buf k (searched buf i k)
    unfolding search_backwards
    search-Searched buf zero i hb e = record {
      inside = refl;
      outside = λ j lo hi. refl;
      sized = refl;
    }
    search-Searched buf (suc k) i hb e =
        let n = mask + 1 in
        let y = get_or buf ((tail + k) % n) zero_entry in
        let place = searched_place i k e in
        let low : k < n = omega (arith, index_distance-le m head tail ht) in
        let rest = search-Searched buf k (i + 1) hb (omega arith) in
        elim (Bool-cases (y.seq_num == seq)) [
          | inl hit ↦
              rw (place, hit)
                (record {
                  inside =
                      segment-set_end zero_entry n buf tail k (change y) hb (omega arith) low
                      ∙ sym (change_newest-hit change seq (segment zero_entry n buf tail k) y hit);
                  outside = λ j lo hi.
                      get_or-set_ne buf ((tail + k) % n) ((tail + j) % n) (change y) zero_entry
                        (λ same. place-ne n tail k j (omega arith) (omega arith) hi (sym same));
                  sized = length-set buf ((tail + k) % n) (change y);
                })
          | inr miss ↦
              rw (place, miss)
                (record {
                  inside =
                      ap₂ (λ xs z. xs ++ z ∷ []) rest.inside (rest.outside k (omega arith) low)
                      ∙ sym
                          (change_newest-miss change seq (segment zero_entry n buf tail k) y miss);
                  outside = λ j lo hi. rest.outside j (omega arith) hi;
                  sized = rest.sized;
                })
        ]

-- What an update leaves: the held entries with the newest of the sequence number changed, and all
-- else as it was.
pub record Updated (change : StatsEntry → StatsEntry) (seq : ℕ) (s t : StatsCollector)
    : Type 0 where
  pub valid : IsValid t
  pub holds : held t ≡ change_newest change seq (held s)
  pub only_buffer : t ≡ record s { buffer = t.buffer }

-- With statistics disabled nothing changes.
pub update_matching-disabled :
    (config : StatsConfig) (change : StatsEntry → StatsEntry) (seq : ℕ) (s : StatsCollector)
    → config.enabled ≡ 0
    → update_matching config change seq (some s) ≡ some s
unfolding update_matching
update_matching-disabled config change seq s off = ground arith

-- Each of the three updates, on a valid collector and with statistics enabled, changes the newest
-- held entry of the sequence number, if there is one; no other entry, index or counter changes and
-- the invariant is kept.
pub update_matching-Updated :
    (config : StatsConfig) (change : StatsEntry → StatsEntry) (seq : ℕ) {s : StatsCollector}
    → config.enabled ≢ 0
    → IsValid s
    → (t : StatsCollector) × (update_matching config change seq (some s) ≡ some t)
      × Updated change seq s t
unfolding update_matching
update_matching-Updated config change seq {s} on v =
    (result, rw v.allocated (ground arith), updated)
  where
    count : ℕ
    count = index_distance s.size_mask s.head s.tail

    out : List StatsEntry
    out = search_backwards change seq s.size_mask s.head v.entries 0 count

    result : StatsCollector
    result = record s { buffer = some out }

    found : Searched v.ones s.head s.tail v.head_in v.tail_in change seq v.entries count out
    found =
        search-Searched v.ones s.head s.tail v.head_in v.tail_in change seq v.entries count 0
          (omega (arith, v.sized)) (omega arith)

    updated : Updated change seq s result
    updated = record {
      valid = record {
        ones = v.ones;
        entries = out;
        allocated = refl;
        sized = found.sized ∙ v.sized;
        head_in = v.head_in;
        tail_in = v.tail_in;
        capacity_is = v.capacity_is;
        total_in = v.total_in;
        dropped_in = v.dropped_in;
      };
      holds =
          found.inside ∙ sym (ap (change_newest change seq) (held-some s v.entries v.allocated));
      only_buffer = refl;
    }
