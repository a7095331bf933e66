-- ===== src/Join/Arguments/Tests.antt =====
-- Concrete arguments of the join.
use trading_latency_benchmar.Prelude.{
  refl, true, Option, none, some, List, [], ◌∷◌, Bytes, codes, str_eq, if◌then◌else◌,
}
use trading_latency_benchmar.Join.Records.{
  detect_file_type, populate_timestamps_from_file, store_fields,
}
use trading_latency_benchmar.Join.Sequences.{
  find_common_sequences, load_all, load_sequences_from_file, load_lines, sequence_set_add,
  has_sequence, intersect, found_in_all, create_record_table, find_record_by_seq,
}
use trading_latency_benchmar.Join.Line.{
  read_line, parse_csv_line, validate_record_match, extract_sequence_number, starts_with_digit,
  strtol, atoi_u16,
}
use trading_latency_benchmar.Sort.{qsort}
use trading_latency_benchmar.Csv.Text.{digits, padded}
use trading_latency_benchmar.Join.Deltas.{
  OperationMode, TargetType, parse_timestamp_ns, atoll_u64, calculate_delta_fast,
  calculate_mode_deltas,
}
use trading_latency_benchmar.Join.Output.{get_output_header_with_deltas}
use trading_latency_benchmar.Join.Process.{JoinSystem, format_output_record}
use trading_latency_benchmar.Join.Arguments.{
  JoinArgument, Arguments, no_arguments, set_argument, parse_arguments, join_main,
}
use trading_latency_benchmar.Join.Arguments.Checked.{IsComplete, parse_arguments-IsComplete}
use trading_latency_benchmar.Join.Arguments.Written.{IsWritten, join_main-IsWritten}

abbrev arguments : List JoinArgument
arguments =
    JoinArgument.one_way
    ∷ JoinArgument.server
    ∷ JoinArgument.clt_src_ip (codes "10.0.0.1")
    ∷ JoinArgument.clt_src_port (codes "5000")
    ∷ JoinArgument.input_files (codes "a, ")
    ∷ []

abbrev taken : Arguments
taken = record no_arguments {
  target = TargetType.server;
  target_ip = codes "10.0.0.1";
  target_port = 5000;
  input_files = codes "a" ∷ [];
  mode_set = true;
  target_set = true;
  clt_ip_set = true;
  clt_port_set = true;
  input_files_set = true;
}

parse_arguments-IsComplete_example : IsComplete arguments taken
unfolding parse_arguments set_argument atoi_u16 strtol
parse_arguments-IsComplete_example = parse_arguments-IsComplete true arguments taken refl

abbrev system : JoinSystem
system = record {
  set_memory = true;
  result_memory = true;
  table_memory = true;
  output_opens = true;
}

-- The file "a" of the server.
abbrev open_file : Bytes → Option (List Bytes)
open_file name =
    if str_eq name (codes "a")
    then some (
        codes "clt_src_ip,clt_src_port,seq_num,svr_hw_rx_ts,svr_ker_rx_ts,svr_app_rx_ts\n"
        ∷ codes "10.0.0.1,5000,3,1.000000003,1.000000004,1.000000005\n"
        ∷ [])
    else none

join_main-IsWritten_example :
    IsWritten true system open_file arguments (codes "joined_output.csv") (
      get_output_header_with_deltas OperationMode.one_way TargetType.server
      ∷ codes "10.0.0.1,5000,3,1.000000003,1.000000004,1.000000005,0.001,0.001,0.002"
      ∷ [])
unfolding join_main set_argument qsort digits padded detect_file_type find_common_sequences load_all
    load_sequences_from_file load_lines sequence_set_add has_sequence intersect found_in_all
    create_record_table find_record_by_seq read_line parse_csv_line validate_record_match
    extract_sequence_number starts_with_digit strtol atoi_u16 calculate_delta_fast
    calculate_mode_deltas populate_timestamps_from_file format_output_record store_fields
    parse_timestamp_ns atoll_u64
join_main-IsWritten_example =
    join_main-IsWritten true system open_file arguments (codes "joined_output.csv")
      (get_output_header_with_deltas OperationMode.one_way TargetType.server
        ∷ codes "10.0.0.1,5000,3,1.000000003,1.000000004,1.000000005,0.001,0.001,0.002"
        ∷ [])
      refl
