-- ===== src/Join/Tests.antt =====
-- Concrete runs of the join: two files with three common packets, a line as the client writes it and a
-- table of three records.
use trading_latency_benchmar.Prelude.{
  ℕ, ◌==◌, if◌then◌else◌, ◌≡◌, refl, arith, true, none, some, List, [], ◌∷◌, length, map, Bytes,
  codes,
}
use trading_latency_benchmar.Join.Line.{parse_csv_line, strtol}
use trading_latency_benchmar.Join.Line.Fields.{join_fields, parse_csv_line-join_fields}
use trading_latency_benchmar.Join.Sequences.{
  returned, JoinRecord, empty_record, find_common_sequences, find_record_by_seq,
}
use trading_latency_benchmar.Join.Sequences.Common.{IsCommon, find_common_sequences-IsCommon}
use trading_latency_benchmar.Join.Records.{FileType, populate_timestamps_from_file}
use trading_latency_benchmar.Join.Records.Populate.{take_lines, populate_timestamps_from_file-map}
use trading_latency_benchmar.Join.Deltas.{
  OperationMode, TargetType, calculate_delta_fast, calculate_mode_deltas, parse_timestamp_ns,
  atoll_u64,
}
use trading_latency_benchmar.Join.Output.{get_output_header_with_deltas}
use trading_latency_benchmar.Csv.Text.{digits, padded}
use trading_latency_benchmar.Join.Process.{format_output_record, process_join_operation}
use trading_latency_benchmar.Join.Process.Joined.{
  TypedFile, content_of, ample, config, joined_line, process_join_operation-lines,
}
use trading_latency_benchmar.Join.Deltas.Exact.{IsExact, calculate_delta_fast-IsExact}
use trading_latency_benchmar.Join.Sequences.Table.{index_of, find_record_by_seq-index_of}

abbrev client_file : List Bytes
client_file =
    codes "clt_src_ip,clt_src_port,seq_num,clt_app_tx_ts\n"
    ∷ codes "10.0.0.1,5000,7,1.000000007\n"
    ∷ codes "10.0.0.1,5000,3,1.000000003\n"
    ∷ codes "10.0.0.2,5000,4,1.000000004\n"
    ∷ []

abbrev server_file : List Bytes
server_file =
    codes "clt_src_ip,clt_src_port,seq_num,svr_ker_tx_ts\n"
    ∷ codes "10.0.0.1,5000,3,2.000000003\n"
    ∷ codes "10.0.0.1,5000,4,2.000000004\n"
    ∷ codes "10.0.0.1,5000,7,2.000000007\n"
    ∷ []

find_common_sequences-IsCommon_example :
    (common : List ℕ) × (find_common_sequences true true
        (codes "10.0.0.1")
        5000
        (map some (client_file ∷ server_file ∷ []))
      ≡ some common)
    × IsCommon (codes "10.0.0.1") 5000 (client_file ∷ server_file ∷ []) common
find_common_sequences-IsCommon_example =
    find_common_sequences-IsCommon (codes "10.0.0.1") 5000 client_file (server_file ∷ [])

abbrev table : List JoinRecord
table = empty_record 3 ∷ empty_record 5 ∷ empty_record 9 ∷ []

find_record_by_seq-index_of_example :
    find_record_by_seq table 9 ≡ index_of 9 (map (λ (r : JoinRecord). r.seq_num) table)
find_record_by_seq-index_of_example =
    find_record_by_seq-index_of table 9
      ((omega arith, (omega arith, tt)), ((omega arith, tt), (tt, tt)))

parse_csv_line-join_fields_example :
    parse_csv_line (join_fields (codes "ab") (codes "7" ∷ [] ∷ [])) 20
    ≡ codes "ab" ∷ codes "7" ∷ [] ∷ []
parse_csv_line-join_fields_example =
    parse_csv_line-join_fields 20 (codes "ab") (codes "7" ∷ [] ∷ []) (omega arith) (
      ((ground arith, ground arith, refl), ((ground arith, ground arith, refl), tt)),
      (((ground arith, ground arith, refl), tt), (tt, tt)),
    )

populate_timestamps_from_file-map_example :
    populate_timestamps_from_file
      (some server_file)
      FileType.server_roundtrip_tx
      (codes "10.0.0.1")
      5000
      table
    ≡ (
      returned,
      map
          (take_lines FileType.server_roundtrip_tx (codes "10.0.0.1") 5000 (
            codes "10.0.0.1,5000,3,2.000000003\n"
            ∷ codes "10.0.0.1,5000,4,2.000000004\n"
            ∷ codes "10.0.0.1,5000,7,2.000000007\n"
            ∷ []))
          table,
    )
populate_timestamps_from_file-map_example =
    populate_timestamps_from_file-map (codes "clt_src_ip,clt_src_port,seq_num,svr_ker_tx_ts\n")
      (codes "10.0.0.1,5000,3,2.000000003\n"
        ∷ codes "10.0.0.1,5000,4,2.000000004\n"
        ∷ codes "10.0.0.1,5000,7,2.000000007\n"
        ∷ [])
      FileType.server_roundtrip_tx (codes "10.0.0.1") 5000 table
      ((omega arith, (omega arith, tt)), ((omega arith, tt), (tt, tt)))

calculate_delta_fast-IsExact_example :
    IsExact 1000000 3500042 (calculate_delta_fast 1000000 3500042)
calculate_delta_fast-IsExact_example = calculate_delta_fast-IsExact 1000000 3500042 (omega arith)

-- The same two files, joined.
abbrev client_input : TypedFile
client_input = record {
  header = codes "clt_src_ip,clt_src_port,seq_num,clt_app_tx_ts\n";
  lines = codes "10.0.0.1,5000,7,1.000000007\n" ∷ codes "10.0.0.1,5000,3,1.000000003\n" ∷ [];
  detected_type = FileType.client_oneway_main;
}

abbrev tx_input : TypedFile
tx_input = record {
  header = codes "clt_src_ip,clt_src_port,seq_num,clt_ker_tx_ts\n";
  lines = codes "10.0.0.1,5000,3,2.000000003\n" ∷ codes "10.0.0.1,5000,7,2.000000007\n" ∷ [];
  detected_type = FileType.client_oneway_tx;
}

process_join_operation-lines_example :
    (common : List ℕ) × IsCommon
      (codes "10.0.0.1")
      5000
      (map content_of (client_input ∷ tx_input ∷ []))
      common
    × (process_join_operation ample (
          config OperationMode.one_way TargetType.client
            (codes "10.0.0.1")
            5000
            client_input
            (tx_input ∷ []))
        ≡ (
          returned,
          if length common == 0
              then none
              else some (
                  get_output_header_with_deltas OperationMode.one_way TargetType.client
                  ∷ map
                      (joined_line OperationMode.one_way TargetType.client
                        (codes "10.0.0.1")
                        5000
                        client_input
                        (tx_input ∷ []))
                      common),
        ))
process_join_operation-lines_example =
    process_join_operation-lines OperationMode.one_way TargetType.client (codes "10.0.0.1") 5000
      client_input (tx_input ∷ [])

-- The line of packet 3, with its one delta of a second.
line_of_3 :
    format_output_record
      (codes "10.0.0.1")
      5000
      OperationMode.one_way
      TargetType.client
      (record (empty_record 3) { timestamps = [] ∷ codes "1.000000003" ∷ codes "2.000000003" ∷ [] })
    ≡ codes "10.0.0.1,5000,3,1.000000003,2.000000003,1000000.000"
unfolding format_output_record digits padded calculate_mode_deltas calculate_delta_fast
    parse_timestamp_ns atoll_u64 strtol
line_of_3 = refl
