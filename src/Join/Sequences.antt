-- ===== src/Join/Sequences.antt =====
-- Sets of sequence numbers and the record table, from src/timestamp_csvjoin.c: `sequence_set_add`,
-- `load_sequences_from_file`, `find_common_sequences`, `create_record_table`, `find_record_by_seq`.
pub mod Common
pub mod Table
use trading_latency_benchmar.Prelude.{
  ℕ, zero, suc, ◌+◌, ◌-◌, ◌*◌, ◌/◌, Bool, true, false, ◌&&◌, not, Option, none, some, List, [], ◌∷◌,
  ◌++◌, length, get_or, replicate, map, ◌==◌, ltb, leb, if◌then◌else◌, Bytes, codes,
}
use trading_latency_benchmar.Sort.{Comparison, before, same, after, qsort}
use trading_latency_benchmar.Join.Line.{read_line}

-- Whether a call returned 0 or -1.
pub data Outcome : Type 0 where
  returned failed : Outcome

-- `sequence_set_t`: the first `count` sequences, of which there are `capacity`.
pub record SequenceSet : Type 0 where
  pub sequences : List ℕ
  pub capacity : ℕ

abbrev pub empty_set : SequenceSet
empty_set = record { sequences = []; capacity = 0 }

unfoldable pub compare_uint32 : ℕ → ℕ → Comparison
compare_uint32 a b = if ltb a b then before else if ltb b a then after else same

-- The loops that look for a number in a set.
unfoldable pub has_sequence : ℕ → List ℕ → Bool
has_sequence seq_num [] = false
has_sequence seq_num (s ∷ rest) = if s == seq_num then true else has_sequence seq_num rest

-- The first argument says whether `realloc` succeeds.
unfoldable pub sequence_set_add : Bool → SequenceSet → ℕ → Outcome × SequenceSet
sequence_set_add memory seq_set seq_num =
    let count = length seq_set.sequences in
    let grown = if seq_set.capacity == 0 then 1024 else seq_set.capacity * 2 in
    let extended = seq_set.sequences ++ seq_num ∷ [] in
    if has_sequence seq_num seq_set.sequences
    then (returned, seq_set)
    else if leb seq_set.capacity count
    then if memory
      then (returned, record { sequences = extended; capacity = grown })
      else (failed, seq_set)
    else (returned, record seq_set { sequences = extended })

-- The second loop of `load_sequences_from_file`, over the lines that `fgets` gives; a number that
-- cannot be added is left out.
unfoldable pub load_lines : Bool → Bytes → ℕ → List Bytes → SequenceSet → SequenceSet
load_lines memory target_ip target_port [] seq_set = seq_set
load_lines memory target_ip target_port (line ∷ rest) seq_set =
    load_lines memory target_ip target_port rest (elim (read_line target_ip target_port line) [
      | none ↦ seq_set
      | some found ↦ (sequence_set_add memory seq_set (found.0)).1
    ])

-- A file that can be opened is its lines. The first is the header.
unfoldable pub load_sequences_from_file :
    Bool → Bytes → ℕ → Option (List Bytes) → SequenceSet → Outcome × SequenceSet
load_sequences_from_file memory target_ip target_port none seq_set = (failed, seq_set)
load_sequences_from_file memory target_ip target_port (some []) seq_set = (returned, seq_set)
load_sequences_from_file memory target_ip target_port (some (header ∷ lines)) seq_set =
    (returned, load_lines memory target_ip target_port lines seq_set)

-- The first loop of `find_common_sequences`.
unfoldable pub load_all : Bool → Bytes → ℕ → List (Option (List Bytes)) → Option (List SequenceSet)
load_all memory target_ip target_port [] = some []
load_all memory target_ip target_port (file ∷ rest) =
    let (outcome, seq_set) = load_sequences_from_file memory target_ip target_port file empty_set in
    let further = load_all memory target_ip target_port rest in
    elim outcome [
      | failed ↦ none
      | returned ↦ elim further [ none ↦ none | some seq_sets ↦ some (seq_set ∷ seq_sets) ]
    ]

-- Is the number in the sets of all other files?
unfoldable pub found_in_all : ℕ → List SequenceSet → Bool
found_in_all seq [] = true
found_in_all seq (seq_set ∷ rest) =
    if has_sequence seq seq_set.sequences then found_in_all seq rest else false

-- "Find intersection across all files"
unfoldable pub intersect : List ℕ → List SequenceSet → List ℕ
intersect [] others = []
intersect (seq ∷ rest) others =
    let further = intersect rest others in
    if found_in_all seq others then seq ∷ further else further

-- The common sequences, unless a call fails. The second argument says whether `malloc` succeeds. There
-- is a file at least, as `validate_file_combination` checks.
unfoldable pub find_common_sequences :
    Bool → Bool → Bytes → ℕ → List (Option (List Bytes)) → Option (List ℕ)
find_common_sequences memory result_memory target_ip target_port files =
    elim (load_all memory target_ip target_port files) [
      | none ↦ none
      | some [] ↦ some []
      | some (first ∷ others) ↦
          if length first.sequences == 0
          then some []
          else if not result_memory
          then none
          else some (qsort compare_uint32 (intersect first.sequences others))
    ]

-- `record_t`; `timestamps` has 20 places.
pub record JoinRecord : Type 0 where
  pub seq_num : ℕ
  pub timestamps : List Bytes
  pub field_mask : ℕ

-- The record of a number before any timestamp is known.
abbrev pub empty_record : ℕ → JoinRecord
empty_record seq = record {
  seq_num = seq;
  timestamps = replicate 20 (codes "NULL");
  field_mask = 0;
}

-- The first argument says whether `calloc` succeeds.
unfoldable pub create_record_table : Bool → List ℕ → Option (List JoinRecord)
create_record_table memory common_seqs =
    if length common_seqs == 0
    then none
    else if not memory
    then none
    else some (map empty_record common_seqs)

-- The loop of the binary search between `left` and `right`, where `stop` is `right + 1`, as `right` can
-- be -1. The fuel is at least the number of places in between.
unfoldable pub search_between : ℕ → List JoinRecord → ℕ → ℕ → ℕ → Option ℕ
search_between zero records seq_num left stop = none
search_between (suc fuel) records seq_num left stop =
    let mid = left + (stop - 1 - left) / 2 in
    let here = (get_or records mid (empty_record 0)).seq_num in
    let above = search_between fuel records seq_num (mid + 1) stop in
    let below = search_between fuel records seq_num left mid in
    if leb stop left
    then none
    else if here == seq_num
    then some mid
    else if ltb here seq_num
    then above
    else below

-- The index of the record, `none` for -1.
unfoldable pub find_record_by_seq : List JoinRecord → ℕ → Option ℕ
unfolding search_between
find_record_by_seq records seq_num =
    search_between (length records) records seq_num 0 (length records)
