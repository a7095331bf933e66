-- ===== src/Join/Sequences/Common/Added.antt =====
-- `sequence_set_add` of src/timestamp_csvjoin.c, and the sets of sequence numbers as lists.
use trading_latency_benchmar.Prelude.{
  ℕ, ◌+◌, ◌≤◌, ◌<◌, ◌≡◌, refl, arith, Bool, true, false, ◌&&◌, ◌||◌, Option, none, some, List, [],
  ◌∷◌, ◌++◌, length, ◌==◌, ltb, leb, if◌then◌else◌, Bytes, Bool-cases, inl, inr, subst,
  length-append,
}
use native.Mathlib.Decide.{ℕ_discrete}
use trading_latency_benchmar.Sort.Laws.{count}
use trading_latency_benchmar.Join.Line.{read_line}
use trading_latency_benchmar.Join.Sequences.{SequenceSet, empty_set, has_sequence, sequence_set_add}

pub or_assoc : (a b c : Bool) → ((a || b) || c) ≡ (a || (b || c))
or_assoc a b c = ground arith

-- Does a line that was read give the number?
unfoldable pub found_mentions : ℕ → Option (ℕ × List Bytes) → Bool
found_mentions n none = false
found_mentions n (some found) = found.0 == n

module _ (target_ip : Bytes) (target_port : ℕ) where
  -- Does any of the lines, for the target?
  unfoldable pub mentioned : ℕ → List Bytes → Bool
  mentioned n [] = false
  mentioned n (line ∷ rest) =
      found_mentions n (read_line target_ip target_port line) || mentioned n rest

  -- Does any line of the file behind its header?
  unfoldable pub mentioned_in_file : ℕ → List Bytes → Bool
  mentioned_in_file n [] = false
  mentioned_in_file n (header ∷ lines) = mentioned n lines

  -- Do all files mention it?
  unfoldable pub mentioned_by_all : ℕ → List (List Bytes) → Bool
  mentioned_by_all n [] = true
  mentioned_by_all n (file ∷ rest) = mentioned_in_file n file && mentioned_by_all n rest

pub has_sequence-count : (n : ℕ) (xs : List ℕ) → has_sequence n xs ≡ ltb 0 (count n xs)
unfolding has_sequence
has_sequence-count n [] = refl
has_sequence-count n (x ∷ xs) = ground (arith, has_sequence-count n xs)

has_sequence-append :
    (n s : ℕ) (xs : List ℕ) → has_sequence n (xs ++ s ∷ []) ≡ (has_sequence n xs || s == n)
unfolding has_sequence
has_sequence-append n s [] = ground arith
has_sequence-append n s (x ∷ xs) = ground (arith, has_sequence-append n s xs)

count-append_one :
    (n s : ℕ) (xs : List ℕ) → count n (xs ++ s ∷ []) ≡ count n xs + (if s == n then 1 else 0)
count-append_one n s [] = omega arith
count-append_one n s (x ∷ xs) = omega (arith, count-append_one n s xs)

-- No number stands twice, and the array is large enough.
pub record IsNumberSet (seq_set : SequenceSet) : Type 0 where
  pub once : (n : ℕ) → count n seq_set.sequences ≤ 1
  pub inside : length seq_set.sequences ≤ seq_set.capacity

pub empty_set-IsNumberSet : IsNumberSet empty_set
empty_set-IsNumberSet = record { once = λ n. omega arith; inside = omega arith }

-- With memory an addition leaves a set with the number in it.
pub record Added (s : ℕ) (before after : SequenceSet) : Type 0 where
  pub valid : IsNumberSet after
  pub members :
      (n : ℕ) → has_sequence n after.sequences ≡ (has_sequence n before.sequences || s == n)

absent-once :
    (n s : ℕ) (xs : List ℕ)
    → has_sequence s xs ≡ false
    → count n xs ≤ 1
    → count n (xs ++ s ∷ []) ≤ 1
absent-once n s xs absent once = elim (ℕ_discrete s n) [
  | yes same_number ↦
      let absent_n : has_sequence n xs ≡ false =
        subst (λ k. has_sequence k xs ≡ false) same_number absent in
      ground (arith, count-append_one n s xs, has_sequence-count n xs)
  | no other ↦ ground (arith, count-append_one n s xs)
]

extended-Added :
    (seq_set : SequenceSet) (s capacity : ℕ)
    → IsNumberSet seq_set
    → has_sequence s seq_set.sequences ≡ false
    → length seq_set.sequences < capacity
    → Added s seq_set (record { sequences = seq_set.sequences ++ s ∷ []; capacity = capacity })
extended-Added seq_set s capacity v absent room = record {
  valid = record {
    once = λ n. absent-once n s seq_set.sequences absent (v.once n);
    inside = omega (arith, length-append seq_set.sequences (s ∷ []));
  };
  members = λ n. has_sequence-append n s seq_set.sequences;
}

present-member :
    (n s : ℕ) (xs : List ℕ)
    → has_sequence s xs ≡ true
    → has_sequence n xs ≡ (has_sequence n xs || s == n)
present-member n s xs present = elim (ℕ_discrete s n) [
  | yes same_number ↦
      let present_n : has_sequence n xs ≡ true =
        subst (λ k. has_sequence k xs ≡ true) same_number present in
      ground (arith, present_n)
  | no other ↦ ground arith
]

pub sequence_set_add-Added :
    (seq_set : SequenceSet) (s : ℕ)
    → IsNumberSet seq_set
    → Added s seq_set (sequence_set_add true seq_set s).1
unfolding sequence_set_add
sequence_set_add-Added seq_set s v = elim (Bool-cases (has_sequence s seq_set.sequences)) [
  | inl present ↦
      rw present (record { valid = v; members = λ n. present-member n s seq_set.sequences present })
  | inr absent ↦ rw absent (elim (Bool-cases (leb seq_set.capacity (length seq_set.sequences))) [
    | inl full ↦ rw full (extended-Added seq_set s _ v absent (ground (arith, v.inside)))
    | inr room ↦ rw room (extended-Added seq_set s seq_set.capacity v absent (ground arith))
  ])
]
