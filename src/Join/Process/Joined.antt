-- ===== src/Join/Process/Joined.antt =====
-- What `process_join_operation` of src/timestamp_csvjoin.c writes.
use trading_latency_benchmar.Prelude.{
  ℕ, ◌≡◌, refl, ◌∙◌, sym, ap, true, false, Option, none, some, List, [], ◌∷◌, length, map, ◌==◌,
  if◌then◌else◌, Bytes, Bool-cases, inl, inr, subst,
}
use trading_latency_benchmar.Sort.Laws.{IsIncreasing}
use trading_latency_benchmar.Join.Sequences.{
  Outcome, returned, failed, JoinRecord, empty_record, find_common_sequences, create_record_table,
}
use trading_latency_benchmar.Join.Sequences.Common.{IsCommon, find_common_sequences-IsCommon}
use trading_latency_benchmar.Join.Records.{FileType}
use trading_latency_benchmar.Join.Records.Populate.{
  seq_nums, seq_nums-map, take_lines, take_lines-seq_num, populate_timestamps_from_file-map,
}
use trading_latency_benchmar.Join.Deltas.{OperationMode, TargetType}
use trading_latency_benchmar.Join.Output.{get_output_header_with_deltas}
use trading_latency_benchmar.Join.Process.{
  format_output_record, write_output_csv, InputFile, JoinConfig, JoinSystem, populate_all,
  process_join_operation,
}

-- A file with a header, and its type.
pub record TypedFile : Type 0 where
  pub header : Bytes
  pub lines : List Bytes
  pub detected_type : FileType

abbrev pub content_of : TypedFile → List Bytes
content_of f = f.header ∷ f.lines

abbrev pub input_of : TypedFile → InputFile
input_of f = record { content = some (content_of f); detected_type = f.detected_type }

-- What the lines of all files do to a record, the files in their order.
pub take_files : Bytes → ℕ → List TypedFile → JoinRecord → JoinRecord
take_files target_ip target_port [] r = r
take_files target_ip target_port (f ∷ files) r =
    take_files target_ip target_port files
      (take_lines f.detected_type target_ip target_port f.lines r)

map-map :
    {A B C : Type 0} (f : A → B) (g : B → C) (xs : List A)
    → map g (map f xs) ≡ map (λ x. g (f x)) xs
map-map f g [] = refl
map-map f g (x ∷ xs) = ap (λ r. g (f x) ∷ r) (map-map f g xs)

map_self : {A : Type 0} (xs : List A) → map (λ x. x) xs ≡ xs
map_self [] = refl
map_self (x ∷ xs) = ap (λ r. x ∷ r) (map_self xs)

seq_nums-empty : (common : List ℕ) → seq_nums (map empty_record common) ≡ common
seq_nums-empty [] = refl
seq_nums-empty (n ∷ ns) = ap (λ r. n ∷ r) (seq_nums-empty ns)

populate_all-map :
    (target_ip : Bytes) (target_port : ℕ) (files : List TypedFile) (records : List JoinRecord)
    → IsIncreasing (seq_nums records)
    → populate_all target_ip target_port (map input_of files) records
      ≡ (returned, map (take_files target_ip target_port files) records)
unfolding populate_all take_files
populate_all-map target_ip target_port [] records h =
    ap (λ r. (returned, r)) (sym (map_self records))
populate_all-map target_ip target_port (f ∷ files) records h =
    let one = take_lines f.detected_type target_ip target_port f.lines in
    let next = map one records in
    let increasing : IsIncreasing (seq_nums next) =
      subst IsIncreasing
        (sym (
          seq_nums-map one records
            (take_lines-seq_num f.detected_type target_ip target_port f.lines)))
        h in
    ap
      (λ (r : Outcome × List JoinRecord). elim (r.0) [
        | failed ↦ (failed, r.1)
        | returned ↦ populate_all target_ip target_port (map input_of files) (r.1)
      ])
      (populate_timestamps_from_file-map f.header f.lines f.detected_type target_ip target_port
        records h)
    ∙ (populate_all-map target_ip target_port files next increasing
        ∙ ap (λ r. (returned, r)) (map-map one (take_files target_ip target_port files) records))

abbrev pub ample : JoinSystem
ample = record { set_memory = true; result_memory = true; table_memory = true; output_opens = true }

module _ (mode : OperationMode) (target : TargetType) (target_ip : Bytes) (target_port : ℕ)
    (file : TypedFile) (files : List TypedFile) where
  abbrev pub config : JoinConfig
  config = record {
    mode = mode;
    target = target;
    target_ip = target_ip;
    target_port = target_port;
    input_files = map input_of (file ∷ files);
  }

  -- The line for a sequence number.
  abbrev pub joined_line : ℕ → Bytes
  joined_line n =
      format_output_record target_ip target_port mode target
        (take_files target_ip target_port (file ∷ files) (empty_record n))

  after_populate : Outcome × List JoinRecord → Outcome × Option (List Bytes)
  after_populate result = elim (result.0) [
    | failed ↦ (failed, none)
    | returned ↦ (returned, some (write_output_csv target_ip target_port mode target (result.1)))
  ]

  after_table : Option (List JoinRecord) → Outcome × Option (List Bytes)
  after_table table = elim table [
    | none ↦ (failed, none)
    | some records ↦
        after_populate (populate_all target_ip target_port (map input_of (file ∷ files)) records)
  ]

  after_common : Option (List ℕ) → Outcome × Option (List Bytes)
  after_common found = elim found [
    | none ↦ (failed, none)
    | some common ↦
        if length common == 0
        then (returned, none)
        else after_table (create_record_table true common)
  ]

  table_made :
      (common : List ℕ)
      → (length common == 0) ≡ false
      → create_record_table true common ≡ some (map empty_record common)
  unfolding create_record_table
  table_made common some_left = rw some_left refl

  written :
      (common : List ℕ)
      → IsIncreasing common
      → after_common (some common) ≡ (
        returned,
        if length common == 0
            then none
            else some (get_output_header_with_deltas mode target ∷ map joined_line common),
      )
  unfolding after_common after_table after_populate write_output_csv
  written common h = elim (Bool-cases (length common == 0)) [
    | inl nothing ↦ rw nothing refl
    | inr some_left ↦
        let all = file ∷ files in
        rw some_left (
          ap after_table (table_made common some_left)
          ∙ (ap after_populate (
                populate_all-map target_ip target_port all (map empty_record common)
                  (subst IsIncreasing (sym (seq_nums-empty common)) h))
              ∙ ap (λ l. (returned, some (get_output_header_with_deltas mode target ∷ l)))
                  (ap (map (format_output_record target_ip target_port mode target))
                      (map-map empty_record (take_files target_ip target_port all) common)
                    ∙ map-map (λ n. take_files target_ip target_port all (empty_record n))
                        (format_output_record target_ip target_port mode target) common)))
  ]

  -- If the files have headers and can be opened, and memory and the output file are there, the join
  -- succeeds, and the output is the header followed by one line for each sequence number that all files
  -- give for the target, in increasing order, with the fields that the lines of all files give for this
  -- number; without common numbers no file is written.
  pub process_join_operation-lines :
      (common : List ℕ) × IsCommon target_ip target_port (map content_of (file ∷ files)) common
      × (process_join_operation ample config ≡ (
        returned,
        if length common == 0
            then none
            else some (get_output_header_with_deltas mode target ∷ map joined_line common),
      ))
  unfolding process_join_operation after_common after_table after_populate
  process_join_operation-lines =
      let (common, found, is_common) =
        find_common_sequences-IsCommon target_ip target_port (content_of file)
          (map content_of files) in
      let opened : map (λ (input : InputFile). input.content) (map input_of (file ∷ files))
          ≡ map some (map content_of (file ∷ files)) =
        map-map input_of (λ (input : InputFile). input.content) (file ∷ files)
        ∙ sym (map-map content_of some (file ∷ files)) in
      (
        common,
        is_common,
        ap after_common (ap (find_common_sequences true true target_ip target_port) opened ∙ found)
            ∙ written common is_common.increasing,
      )
