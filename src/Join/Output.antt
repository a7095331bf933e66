-- ===== src/Join/Output.antt =====
-- The columns of the joined file, from src/timestamp_csvjoin.c: `get_output_header_with_deltas` and the
-- timestamps that `format_output_record` writes, followed by those deltas that
-- `calculate_mode_deltas` computes.
use Prim.Native.String.{String}
use trading_latency_benchmar.Prelude.{ℕ, ◌≡◌, refl, List, [], ◌∷◌, ◌++◌, map, get_or, Bytes, codes}
use trading_latency_benchmar.Join.Line.Fields.{join_fields}
use trading_latency_benchmar.Join.Deltas.{
  OperationMode, TargetType, ColumnDefinition, all_delta_definitions, mode_delta_indices,
}

unfoldable pub get_output_header_with_deltas : OperationMode → TargetType → Bytes
get_output_header_with_deltas OperationMode.one_way TargetType.client =
    codes
      "clt_src_ip,clt_src_port,seq_num,clt_app_tx_ts,clt_ker_tx_ts,delta_d1_clt_app_tx_to_ker_tx_us"
get_output_header_with_deltas OperationMode.one_way TargetType.server =
    codes
      "clt_src_ip,clt_src_port,seq_num,svr_hw_rx_ts,svr_ker_rx_ts,svr_app_rx_ts,delta_d2_svr_hw_rx_to_ker_rx_us,delta_d3_svr_ker_rx_to_app_rx_us,delta_tt_d1_svr_hw_rx_to_app_rx_us"
get_output_header_with_deltas OperationMode.one_way TargetType.client_server =
    codes
      "clt_src_ip,clt_src_port,seq_num,clt_app_tx_ts,clt_ker_tx_ts,svr_hw_rx_ts,svr_ker_rx_ts,svr_app_rx_ts,delta_d1_clt_app_tx_to_ker_tx_us,delta_d2_svr_hw_rx_to_ker_rx_us,delta_d3_svr_ker_rx_to_app_rx_us,delta_tt_d1_svr_hw_rx_to_app_rx_us,delta_net_clt_ker_tx_to_svr_hw_rx_us"
get_output_header_with_deltas OperationMode.round_trip TargetType.client =
    codes
      "clt_src_ip,clt_src_port,seq_num,clt_app_tx_tsc_ts,clt_app_tx_ts,clt_ker_tx_ts,clt_hw_rx_ts,clt_ker_rx_ts,clt_app_rx_tsc_ts,clt_app_rx_ts,delta_d1_clt_app_tx_to_ker_tx_us,delta_d6_clt_hw_rx_to_ker_rx_us,delta_d7_clt_ker_rx_to_app_rx_us,delta_rtt_d1_clt_app_tx_to_hw_rx_us,delta_rtt_d2_clt_app_tx_to_app_rx_us,delta_rtt_d3_clt_app_tx_tsc_to_app_rx_tsc_us"
get_output_header_with_deltas OperationMode.round_trip TargetType.server =
    codes
      "clt_src_ip,clt_src_port,seq_num,svr_hw_rx_ts,svr_ker_rx_ts,svr_app_rx_ts,svr_app_tx_ts,svr_ker_tx_ts,delta_d2_svr_hw_rx_to_ker_rx_us,delta_d3_svr_ker_rx_to_app_rx_us,delta_d4_svr_app_rx_to_app_tx_us,delta_d5_svr_app_tx_to_ker_tx_us,delta_tt_d1_svr_hw_rx_to_app_rx_us,delta_tt_d2_svr_hw_rx_to_ker_tx_us"
get_output_header_with_deltas OperationMode.round_trip TargetType.client_server =
    codes
      "clt_src_ip,clt_src_port,seq_num,clt_app_tx_tsc_ts,clt_app_tx_ts,clt_ker_tx_ts,svr_hw_rx_ts,svr_ker_rx_ts,svr_app_rx_ts,svr_app_tx_ts,svr_ker_tx_ts,clt_hw_rx_ts,clt_ker_rx_ts,clt_app_rx_tsc_ts,clt_app_rx_ts,delta_d1_clt_app_tx_to_ker_tx_us,delta_d6_clt_hw_rx_to_ker_rx_us,delta_d7_clt_ker_rx_to_app_rx_us,delta_rtt_d1_clt_app_tx_to_hw_rx_us,delta_rtt_d2_clt_app_tx_to_app_rx_us,delta_rtt_d3_clt_app_tx_tsc_to_app_rx_tsc_us,delta_d2_svr_hw_rx_to_ker_rx_us,delta_d3_svr_ker_rx_to_app_rx_us,delta_d4_svr_app_rx_to_app_tx_us,delta_d5_svr_app_tx_to_ker_tx_us,delta_tt_d1_svr_hw_rx_to_app_rx_us,delta_tt_d2_svr_hw_rx_to_ker_tx_us,delta_net_clt_ker_tx_to_svr_hw_rx_us,delta_net_svr_ker_tx_to_clt_hw_rx_us"

-- The places of the timestamps that `format_output_record` writes, in its order.
abbrev pub output_fields : OperationMode → TargetType → List ℕ
output_fields OperationMode.one_way TargetType.client = 1 ∷ 2 ∷ []
output_fields OperationMode.one_way TargetType.server = 3 ∷ 4 ∷ 5 ∷ []
output_fields OperationMode.one_way TargetType.client_server = 1 ∷ 2 ∷ 3 ∷ 4 ∷ 5 ∷ []
output_fields OperationMode.round_trip TargetType.client = 0 ∷ 1 ∷ 2 ∷ 8 ∷ 9 ∷ 10 ∷ 11 ∷ []
output_fields OperationMode.round_trip TargetType.server = 3 ∷ 4 ∷ 5 ∷ 6 ∷ 7 ∷ []
output_fields OperationMode.round_trip TargetType.client_server =
    0 ∷ 1 ∷ 2 ∷ 3 ∷ 4 ∷ 5 ∷ 6 ∷ 7 ∷ 8 ∷ 9 ∷ 10 ∷ 11 ∷ []

-- The names of the places, after the constants FIELD_CLT_APP_TX_TSC_TS and so on.
abbrev pub field_names : List String
field_names =
    "clt_app_tx_tsc_ts" ∷ "clt_app_tx_ts" ∷ "clt_ker_tx_ts" ∷ "svr_hw_rx_ts" ∷ "svr_ker_rx_ts"
    ∷ "svr_app_rx_ts" ∷ "svr_app_tx_ts" ∷ "svr_ker_tx_ts" ∷ "clt_hw_rx_ts" ∷ "clt_ker_rx_ts"
    ∷ "clt_app_rx_tsc_ts" ∷ "clt_app_rx_ts" ∷ []

abbrev field_name : ℕ → Bytes
field_name i = codes (get_or field_names i "")

abbrev delta_name : ℕ → Bytes
delta_name i =
    codes (get_or (map (λ (d : ColumnDefinition). d.column_name) all_delta_definitions) i "")

-- The names of the columns that a record has: the address, the port, the sequence number, then the
-- timestamps and the deltas in the order of their values.
abbrev pub column_names : OperationMode → TargetType → List Bytes
column_names mode target =
    codes "clt_src_port" ∷ codes "seq_num" ∷ map field_name (output_fields mode target)
    ++ map delta_name (mode_delta_indices mode target)

-- For every mode and target the header names the columns in the order in which `format_output_record`
-- writes the timestamps and `calculate_mode_deltas` computes the deltas.
pub get_output_header_with_deltas-column_names :
    (mode : OperationMode) (target : TargetType)
    → get_output_header_with_deltas mode target
      ≡ join_fields (codes "clt_src_ip") (column_names mode target)
unfolding get_output_header_with_deltas join_fields
get_output_header_with_deltas-column_names OperationMode.one_way TargetType.client = refl
get_output_header_with_deltas-column_names OperationMode.one_way TargetType.server = refl
get_output_header_with_deltas-column_names OperationMode.one_way TargetType.client_server = refl
get_output_header_with_deltas-column_names OperationMode.round_trip TargetType.client = refl
get_output_header_with_deltas-column_names OperationMode.round_trip TargetType.server = refl
get_output_header_with_deltas-column_names OperationMode.round_trip TargetType.client_server = refl
