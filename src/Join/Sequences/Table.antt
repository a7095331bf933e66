-- ===== src/Join/Sequences/Table.antt =====
-- The binary search of `find_record_by_seq`, beside a search from the start.
use native.Mathlib.Decide.{dec_lt, ℕ_discrete}
use trading_latency_benchmar.Prelude.{
  ℕ, zero, suc, ◌+◌, ◌-◌, ◌/◌, ◌≤◌, ◌<◌, ◌≡◌, ◌≢◌, refl, sym, arith, true, false, Option, none,
  some, List, [], ◌∷◌, length, length-map, get_or, map, ◌==◌, leb, if◌then◌else◌, All,
}
use trading_latency_benchmar.Sort.Laws.{IsIncreasing}
use trading_latency_benchmar.Join.Sequences.{
  JoinRecord, empty_record, search_between, find_record_by_seq,
}

-- The first place of a number, from the start on.
unfoldable pub index_of : ℕ → List ℕ → Option ℕ
index_of s [] = none
index_of s (x ∷ xs) =
    if x == s then some 0 else elim (index_of s xs) [ none ↦ none | some i ↦ some (suc i) ]

All-above : (x : ℕ) (xs : List ℕ) (i : ℕ) → All (λ y. x < y) xs → i < length xs → x < get_or xs i 0
All-above x [] i h lt = absurd (omega arith)
All-above x (y ∷ ys) zero (h, _) lt = h
All-above x (y ∷ ys) (suc i) (_, h) lt = All-above x ys i h (omega arith)

IsIncreasing-get_or :
    (xs : List ℕ) (i j : ℕ)
    → IsIncreasing xs
    → i < j
    → j < length xs
    → get_or xs i 0 < get_or xs j 0
IsIncreasing-get_or [] i j h lt inside = absurd (omega arith)
IsIncreasing-get_or (x ∷ xs) i zero h lt inside = absurd (omega arith)
IsIncreasing-get_or (x ∷ xs) zero (suc j) (above, h) lt inside =
    All-above x xs j above (omega arith)
IsIncreasing-get_or (x ∷ xs) (suc i) (suc j) (above, h) lt inside =
    IsIncreasing-get_or xs i j h (omega arith) (omega arith)

index_of-some :
    (s : ℕ) (xs : List ℕ) (i : ℕ)
    → IsIncreasing xs
    → i < length xs
    → get_or xs i 0 ≡ s
    → index_of s xs ≡ some i
unfolding index_of
index_of-some s [] i h inside here = absurd (omega arith)
index_of-some s (x ∷ xs) zero h inside here = ground arith
index_of-some s (x ∷ xs) (suc i) (above, h) inside here =
    let below : x < s = omega (arith, All-above x xs i above (omega arith)) in
    ground (arith, index_of-some s xs i h (omega arith) here)

index_of-none :
    (s : ℕ) (xs : List ℕ) → ((i : ℕ) → i < length xs → get_or xs i 0 ≢ s) → index_of s xs ≡ none
unfolding index_of
index_of-none s [] h = refl
index_of-none s (x ∷ xs) h =
    let first : x ≢ s = h 0 (omega arith) in
    ground (arith, index_of-none s xs (λ i inside. h (suc i) (omega arith)))

seq_num-map :
    (records : List JoinRecord) (i : ℕ)
    → (get_or records i (empty_record 0)).seq_num
      ≡ get_or (map (λ (r : JoinRecord). r.seq_num) records) i 0
seq_num-map [] i = refl
seq_num-map (r ∷ rs) zero = refl
seq_num-map (r ∷ rs) (suc i) = seq_num-map rs i

module _ (records : List JoinRecord) (s : ℕ)
    (h : IsIncreasing (map (λ (r : JoinRecord). r.seq_num) records)) where
  abbrev keys : List ℕ
  keys = map (λ (r : JoinRecord). r.seq_num) records

  abbrev key : ℕ → ℕ
  key i = get_or keys i 0

  -- All places of the number are between the two bounds.
  abbrev Between : ℕ → ℕ → Type 0
  Between left stop = (i : ℕ) → i < length keys → key i ≡ s → (left ≤ i) × (i < stop)

  mono_keys : (i j : ℕ) → i ≤ j → j < length keys → key i ≤ key j
  mono_keys i j le inside = elim (ℕ_discrete i j) [
    | yes same_place ↦ rw same_place (omega arith)
    | no other ↦ omega (arith, IsIncreasing-get_or keys i j h (omega arith) inside)
  ]

  after_mid :
      (left stop mid : ℕ)
      → Between left stop
      → mid < stop
      → stop ≤ length keys
      → key mid < s
      → Between (mid + 1) stop
  after_mid left stop mid between below_stop inside low i lt here = elim (dec_lt mid i) [
    | yes further ↦ (omega arith, (between i lt here).1)
    | no before_it ↦ absurd (omega (arith, mono_keys i mid (omega arith) (omega arith)))
  ]

  before_mid :
      (left stop mid : ℕ) → Between left stop → mid < length keys → s < key mid → Between left mid
  before_mid left stop mid between inside high i lt here = elim (dec_lt i mid) [
    | yes before_it ↦ ((between i lt here).0, before_it)
    | no further ↦ absurd (omega (arith, mono_keys mid i (omega arith) lt))
  ]

  search_between-index_of :
      (fuel left stop : ℕ)
      → stop ≤ left + fuel
      → stop ≤ length keys
      → Between left stop
      → search_between fuel records s left stop ≡ index_of s keys
  unfolding search_between
  search_between-index_of zero left stop enough inside between =
      sym (index_of-none s keys (λ i lt here. let (low, high) = between i lt here in omega arith))
  search_between-index_of (suc fuel) left stop enough inside between = elim (dec_lt left stop) [
    | no closed ↦
        let shut : leb stop left ≡ true = ground arith in
        rw shut (
          sym (
            index_of-none s keys (λ i lt here. let (low, high) = between i lt here in omega arith)))
    | yes open_left ↦
        let mid = left + (stop - 1 - left) / 2 in
        let far : (left ≤ mid) × (mid < stop) = (omega arith, omega arith) in
        let not_shut : leb stop left ≡ false = ground arith in
        elim (ℕ_discrete (key mid) s) [
          | yes here ↦ ground (
            arith,
            not_shut,
            seq_num-map records mid,
            index_of-some s keys mid h (omega arith) here,
          )
          | no elsewhere ↦ elim (dec_lt (key mid) s) [
            | yes low ↦ ground (
              arith,
              not_shut,
              seq_num-map records mid,
              search_between-index_of fuel (mid + 1) stop (omega arith) inside
                  (after_mid left stop mid between far.1 inside low),
            )
            | no high ↦ ground (
              arith,
              not_shut,
              seq_num-map records mid,
              search_between-index_of fuel left mid (omega arith) (omega arith)
                  (before_mid left stop mid between (omega (arith, far.1)) (omega arith)),
            )
          ]
        ]
  ]

-- In a table whose sequence numbers increase, the binary search gives the place of the record with the
-- sequence number, and none if there is no such record: the fuel, one round for each record, is enough.
pub find_record_by_seq-index_of :
    (records : List JoinRecord) (seq_num : ℕ)
    → IsIncreasing (map (λ (r : JoinRecord). r.seq_num) records)
    → find_record_by_seq records seq_num
      ≡ index_of seq_num (map (λ (r : JoinRecord). r.seq_num) records)
unfolding find_record_by_seq
find_record_by_seq-index_of records seq_num h =
    let size : length (map (λ (r : JoinRecord). r.seq_num) records) ≡ length records =
      length-map records (λ (r : JoinRecord). r.seq_num) in
    search_between-index_of records seq_num h (length records) 0 (length records) (omega arith)
      (omega (arith, size)) (λ i lt here. (omega arith, omega (arith, size)))
