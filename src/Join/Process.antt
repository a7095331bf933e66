-- ===== src/Join/Process.antt =====
-- The whole join of src/timestamp_csvjoin.c: `format_output_record`, `write_output_csv` and
-- `process_join_operation`.
pub mod Joined
use trading_latency_benchmar.Prelude.{
  ℕ, Bool, true, false, not, Option, none, some, List, [], ◌∷◌, ◌++◌, length, get_or, map, ◌==◌,
  if◌then◌else◌, Bytes, codes,
}
use trading_latency_benchmar.Csv.Text.{digits, padded}
use trading_latency_benchmar.Join.Sequences.{
  Outcome, returned, failed, JoinRecord, find_common_sequences, create_record_table,
}
use trading_latency_benchmar.Join.Records.{FileType, populate_timestamps_from_file}
use trading_latency_benchmar.Join.Deltas.{
  OperationMode, TargetType, DeltaResult, calculate_mode_deltas,
}
use trading_latency_benchmar.Join.Output.{get_output_header_with_deltas, output_fields}

-- "%u.%03u" of a delta below 1000 ns behind the point. The buffer has 16 bytes, two more than needed.
unfoldable pub format_delta_to_buffer : DeltaResult → Bytes
format_delta_to_buffer delta =
    if delta.valid == 0
    then codes "NULL"
    else digits 10 delta.delta_whole_us ++ (b'.' ∷ padded 3 delta.delta_frac_ns)

-- Each text behind a comma.
unfoldable pub comma_fields : List Bytes → Bytes
comma_fields [] = []
comma_fields (field ∷ fields) = b',' ∷ (field ++ comma_fields fields)

-- The line of a record. The buffer has 2048 bytes, which is more than an address, two numbers, twelve
-- timestamps of 31 bytes and fourteen deltas of 14 take.
unfoldable pub format_output_record : Bytes → ℕ → OperationMode → TargetType → JoinRecord → Bytes
unfolding comma_fields format_delta_to_buffer
format_output_record target_ip target_port mode target r =
    target_ip
    ++ comma_fields (
        digits 10 target_port ∷ digits 10 r.seq_num ∷ []
        ++ map (λ i. get_or r.timestamps i []) (output_fields mode target)
        ++ map format_delta_to_buffer (calculate_mode_deltas r mode target))

-- The lines of the output file.
unfoldable pub write_output_csv :
    Bytes → ℕ → OperationMode → TargetType → List JoinRecord → List Bytes
write_output_csv target_ip target_port mode target records =
    get_output_header_with_deltas mode target
    ∷ map (format_output_record target_ip target_port mode target) records

-- An input file, as its lines if it can be opened, with its type.
pub record InputFile : Type 0 where
  pub content : Option (List Bytes)
  pub detected_type : FileType

-- `config_t`, less the names of the files.
pub record JoinConfig : Type 0 where
  pub mode : OperationMode
  pub target : TargetType
  pub target_ip : Bytes
  pub target_port : ℕ
  pub input_files : List InputFile

-- The loop over the files; it stops at the first that fails.
unfoldable pub populate_all :
    Bytes → ℕ → List InputFile → List JoinRecord → Outcome × List JoinRecord
populate_all target_ip target_port [] records = (returned, records)
populate_all target_ip target_port (input ∷ inputs) records =
    let (outcome, next) =
      populate_timestamps_from_file input.content input.detected_type target_ip target_port
        records in
    elim outcome [
      | failed ↦ (failed, next)
      | returned ↦ populate_all target_ip target_port inputs next
    ]

-- Whether each of the allocations succeeds, and whether the output file can be opened.
pub record JoinSystem : Type 0 where
  pub set_memory : Bool
  pub result_memory : Bool
  pub table_memory : Bool
  pub output_opens : Bool

-- What is returned, and the output file if it is written.
unfoldable pub process_join_operation : JoinSystem → JoinConfig → Outcome × Option (List Bytes)
unfolding populate_all write_output_csv
process_join_operation system config =
    elim (find_common_sequences system.set_memory system.result_memory config.target_ip
      config.target_port (map (λ (input : InputFile). input.content) config.input_files)) [
        | none ↦ (failed, none)
        | some common ↦
            if length common == 0
            then (returned, none)
            else elim (create_record_table system.table_memory common) [
              | none ↦ (failed, none)
              | some records ↦
                  let (outcome, populated) =
                    populate_all config.target_ip config.target_port config.input_files records in
                  elim outcome [
                    | failed ↦ (failed, none)
                    | returned ↦ if not system.output_opens then (failed, none) else (
                      returned,
                      some (
                          write_output_csv config.target_ip config.target_port config.mode
                            config.target populated),
                    )
                  ]
            ]
      ]
