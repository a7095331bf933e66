-- ===== src/Join/Sequences/Common.antt =====
-- The sequence numbers of each file and those that all files hold, for `find_common_sequences`.
pub mod Added
use trading_latency_benchmar.Prelude.{
  ℕ, ◌+◌, ◌≤◌, ◌<◌, ◌≡◌, refl, ◌∙◌, sym, ap, ap₂, arith, Bool, true, false, ◌&&◌, ◌||◌, Option,
  none, some, List, [], ◌∷◌, ◌++◌, length, map, ◌==◌, ltb, leb, if◌then◌else◌, Bytes, Bool-cases,
  inl, inr, ◌↔◌, subst, length-append,
}
use native.Mathlib.Decide.{ℕ_discrete}
use trading_latency_benchmar.Sort.{after, qsort}
use trading_latency_benchmar.Sort.Laws.{
  count, IsIncreasing, qsort-count, qsort-IsSorted, IsSorted-IsIncreasing,
}
use trading_latency_benchmar.Join.Line.{read_line}
use trading_latency_benchmar.Join.Sequences.{
  SequenceSet, empty_set, compare_uint32, has_sequence, sequence_set_add, load_lines,
  load_sequences_from_file, load_all, found_in_all, intersect, find_common_sequences,
}
use trading_latency_benchmar.Join.Sequences.Common.Added.{
  or_assoc, found_mentions, mentioned, mentioned_in_file, mentioned_by_all, has_sequence-count,
  IsNumberSet, empty_set-IsNumberSet, sequence_set_add-Added,
}

-- What is loaded from the lines of a file.
module _ (target_ip : Bytes) (target_port : ℕ) where
  load_found : Option (ℕ × List Bytes) → SequenceSet → SequenceSet
  load_found found seq_set = elim found [
    | none ↦ seq_set
    | some f ↦ (sequence_set_add true seq_set (f.0)).1
  ]

  record Loaded (lines : List Bytes) (before after : SequenceSet) : Type 0 where
    valid : IsNumberSet after
    members :
        (n : ℕ)
        → has_sequence n after.sequences
          ≡ (has_sequence n before.sequences || mentioned target_ip target_port n lines)

  load_found-Loaded :
      (found : Option (ℕ × List Bytes)) (seq_set : SequenceSet)
      → IsNumberSet seq_set
      → IsNumberSet (load_found found seq_set)
        × ((n : ℕ)
            → has_sequence n (load_found found seq_set).sequences
              ≡ (has_sequence n seq_set.sequences || found_mentions n found))
  unfolding load_found found_mentions
  load_found-Loaded none seq_set v = (v, λ n. ground arith)
  load_found-Loaded (some found) seq_set v =
      let added = sequence_set_add-Added seq_set (found.0) v in (added.valid, added.members)

  load_lines-Loaded :
      (lines : List Bytes) (seq_set : SequenceSet)
      → IsNumberSet seq_set
      → Loaded lines seq_set (load_lines true target_ip target_port lines seq_set)
  unfolding load_lines mentioned load_found
  load_lines-Loaded [] seq_set v = record { valid = v; members = λ n. ground arith }
  load_lines-Loaded (line ∷ rest) seq_set v =
      let found = read_line target_ip target_port line in
      let (valid, members) = load_found-Loaded found seq_set v in
      let further = load_lines-Loaded rest (load_found found seq_set) valid in
      record {
        valid = further.valid;
        members = λ n.
            further.members n
            ∙ (ap (λ b. b || mentioned target_ip target_port n rest) (members n)
                ∙ or_assoc (has_sequence n seq_set.sequences) (found_mentions n found)
                    (mentioned target_ip target_port n rest));
      }

  -- The set that a file gives.
  load_file : List Bytes → SequenceSet
  load_file file = (load_sequences_from_file true target_ip target_port (some file) empty_set).1

  load_file-Loaded :
      (file : List Bytes)
      → IsNumberSet (load_file file)
        × ((n : ℕ)
            → has_sequence n (load_file file).sequences
              ≡ mentioned_in_file target_ip target_port n file)
  unfolding load_file load_sequences_from_file mentioned_in_file has_sequence
  load_file-Loaded [] = (empty_set-IsNumberSet, λ n. refl)
  load_file-Loaded (header ∷ lines) =
      let loaded = load_lines-Loaded lines empty_set empty_set-IsNumberSet in
      (loaded.valid, loaded.members)

  load_all-map :
      (files : List (List Bytes))
      → load_all true target_ip target_port (map some files) ≡ some (map load_file files)
  unfolding load_all load_file load_sequences_from_file
  load_all-map [] = refl
  load_all-map ([] ∷ files) = rw (load_all-map files) refl
  load_all-map ((header ∷ lines) ∷ files) = rw (load_all-map files) refl

  found_in_all-map :
      (n : ℕ) (files : List (List Bytes))
      → found_in_all n (map load_file files) ≡ mentioned_by_all target_ip target_port n files
  unfolding found_in_all mentioned_by_all
  found_in_all-map n [] = refl
  found_in_all-map n (file ∷ files) =
      ground (arith, (load_file-Loaded file).1 n, found_in_all-map n files)

empty_has : (n : ℕ) (xs : List ℕ) → length xs ≡ 0 → has_sequence n xs ≡ false
unfolding has_sequence
empty_has n [] e = refl
empty_has n (x ∷ xs) e = absurd (omega arith)

count-intersect :
    (n : ℕ) (xs : List ℕ) (others : List SequenceSet) → count n (intersect xs others) ≤ count n xs
unfolding intersect
count-intersect n [] others = omega arith
count-intersect n (x ∷ xs) others = elim (Bool-cases (found_in_all x others)) [
  | inl everywhere ↦ ground (arith, count-intersect n xs others)
  | inr elsewhere ↦ ground (arith, count-intersect n xs others)
]

has_sequence-intersect :
    (n : ℕ) (xs : List ℕ) (others : List SequenceSet)
    → has_sequence n (intersect xs others) ≡ (has_sequence n xs && found_in_all n others)
unfolding intersect has_sequence
has_sequence-intersect n [] others = refl
has_sequence-intersect n (x ∷ xs) others = elim (ℕ_discrete x n) [
  | yes same_number ↦
      let same_found : found_in_all x others ≡ found_in_all n others =
        ap (λ k. found_in_all k others) same_number in
      ground (arith, has_sequence-intersect n xs others)
  | no other ↦ ground (arith, has_sequence-intersect n xs others)
]

compare_uint32-after : (a b : ℕ) → (compare_uint32 a b ≡ after) ↔ (b < a)
unfolding compare_uint32
compare_uint32-after a b = ground arith

pub record IsCommon (target_ip : Bytes) (target_port : ℕ) (files : List (List Bytes))
    (common : List ℕ) : Type 0 where
  pub increasing : IsIncreasing common
  pub members : (n : ℕ) → has_sequence n common ≡ mentioned_by_all target_ip target_port n files

module _ (target_ip : Bytes) (target_port : ℕ) (file : List Bytes) (files : List (List Bytes)) where
  abbrev others : List SequenceSet
  others = map (load_file target_ip target_port) files

  abbrev found : List ℕ
  found = intersect (load_file target_ip target_port file).sequences others

  found-IsCommon : IsCommon target_ip target_port (file ∷ files) (qsort compare_uint32 found)
  unfolding mentioned_by_all
  found-IsCommon =
      let loaded = load_file-Loaded target_ip target_port file in
      let same_count = λ (n : ℕ). qsort-count compare_uint32 compare_uint32-after n found in
      record {
        increasing =
            IsSorted-IsIncreasing (qsort compare_uint32 found)
              (qsort-IsSorted compare_uint32 compare_uint32-after found)
              (λ n. omega (
                arith,
                same_count n,
                loaded.0.once n,
                count-intersect n (load_file target_ip target_port file).sequences others,
              ));
        members = λ n.
            has_sequence-count n (qsort compare_uint32 found)
            ∙ (ap (ltb 0) (same_count n)
                ∙ (sym (has_sequence-count n found)
                    ∙ (has_sequence-intersect n (load_file target_ip target_port file).sequences
                          others
                        ∙ ap₂ ◌&&◌ (loaded.1 n) (found_in_all-map target_ip target_port n files))));
      }

  -- An empty first set leaves nothing.
  none-IsCommon :
      length (load_file target_ip target_port file).sequences ≡ 0
      → IsCommon target_ip target_port (file ∷ files) []
  unfolding mentioned_by_all has_sequence
  none-IsCommon nothing =
      let loaded = load_file-Loaded target_ip target_port file in
      record {
        increasing = tt;
        members = λ n. ground (
          arith,
          loaded.1 n,
          empty_has n (load_file target_ip target_port file).sequences nothing,
        );
      }

-- If all files can be opened and memory is there, `find_common_sequences` succeeds, and the common
-- sequence numbers are those that some line of every file gives for the target, each once and in
-- increasing order.
pub find_common_sequences-IsCommon :
    (target_ip : Bytes) (target_port : ℕ) (file : List Bytes) (files : List (List Bytes))
    → (common : List ℕ) × (find_common_sequences true true target_ip target_port
          (map some (file ∷ files))
        ≡ some common)
      × IsCommon target_ip target_port (file ∷ files) common
unfolding find_common_sequences
find_common_sequences-IsCommon target_ip target_port file files =
    let loaded = load_all-map target_ip target_port (file ∷ files) in
    elim (Bool-cases (length (load_file target_ip target_port file).sequences == 0)) [
      | inl nothing ↦ (
        [],
        rw (find_common_sequences, loaded) (ground (arith, nothing)),
        none-IsCommon target_ip target_port file files (ground (arith, nothing)),
      )
      | inr something ↦ (
        qsort compare_uint32 (found target_ip target_port file files),
        rw (find_common_sequences, loaded) (ground (arith, something)),
        found-IsCommon target_ip target_port file files,
      )
    ]
