-- ===== src/Join/Deltas.antt =====
-- The deltas of a joined record, from src/timestamp_csvjoin.c: the tables, `parse_timestamp_ns`,
-- `calculate_delta_fast` and `calculate_mode_deltas`.
pub mod Exact
use trading_latency_benchmar.Prelude.{
  ℕ, ◌+◌, ◌-◌, ◌*◌, ◌/◌, ◌%◌, ◌^◌, Bool, true, false, ◌||◌, Option, none, some, List, [], ◌∷◌, ◌++◌,
  length, get_or, map, take, replicate, ◌==◌, leb, if◌then◌else◌, Bytes, codes, str_eq,
}
use Prim.Native.String.{String}
use trading_latency_benchmar.Join.Line.{strtol}
use trading_latency_benchmar.Join.Sequences.{JoinRecord}

-- `operation_mode_t`
pub data OperationMode : Type 0 where
  one_way round_trip : OperationMode

-- `target_type_t`
pub data TargetType : Type 0 where
  client server client_server : TargetType

-- `delta_definition_t`
pub record ColumnDefinition : Type 0 where
  pub ts_a_field : ℕ
  pub ts_b_field : ℕ
  pub column_name : String
  pub mode_mask : ℕ

abbrev define_column : ℕ → ℕ → String → ℕ → ColumnDefinition
define_column a b name mask = record {
  ts_a_field = a;
  ts_b_field = b;
  column_name = name;
  mode_mask = mask;
}

-- The array has 15 places, of which the last is zeroed and unused.
abbrev pub all_delta_definitions : List ColumnDefinition
all_delta_definitions =
    define_column 1 2 "delta_d1_clt_app_tx_to_ker_tx_us" 0x0F
    ∷ define_column 8 9 "delta_d6_clt_hw_rx_to_ker_rx_us" 0x02
    ∷ define_column 9 11 "delta_d7_clt_ker_rx_to_app_rx_us" 0x02
    ∷ define_column 1 8 "delta_rtt_d1_clt_app_tx_to_hw_rx_us" 0x02
    ∷ define_column 1 11 "delta_rtt_d2_clt_app_tx_to_app_rx_us" 0x02
    ∷ define_column 0 10 "delta_rtt_d3_clt_app_tx_tsc_to_app_rx_tsc_us" 0x02
    ∷ define_column 3 4 "delta_d2_svr_hw_rx_to_ker_rx_us" 0x0C
    ∷ define_column 4 5 "delta_d3_svr_ker_rx_to_app_rx_us" 0x0C
    ∷ define_column 5 6 "delta_d4_svr_app_rx_to_app_tx_us" 0x08
    ∷ define_column 6 7 "delta_d5_svr_app_tx_to_ker_tx_us" 0x08
    ∷ define_column 3 5 "delta_tt_d1_svr_hw_rx_to_app_rx_us" 0x0C
    ∷ define_column 3 7 "delta_tt_d2_svr_hw_rx_to_ker_tx_us" 0x08
    ∷ define_column 2 3 "delta_net_clt_ker_tx_to_svr_hw_rx_us" 0x0C
    ∷ define_column 7 8 "delta_net_svr_ker_tx_to_clt_hw_rx_us" 0x02
    ∷ []

-- `get_mode_delta_config`, which finds a configuration for every mode and target.
abbrev pub mode_delta_indices : OperationMode → TargetType → List ℕ
mode_delta_indices OperationMode.one_way TargetType.client = 0 ∷ []
mode_delta_indices OperationMode.round_trip TargetType.client = 0 ∷ 1 ∷ 2 ∷ 3 ∷ 4 ∷ 5 ∷ []
mode_delta_indices OperationMode.one_way TargetType.server = 6 ∷ 7 ∷ 10 ∷ []
mode_delta_indices OperationMode.round_trip TargetType.server = 6 ∷ 7 ∷ 8 ∷ 9 ∷ 10 ∷ 11 ∷ []
mode_delta_indices OperationMode.one_way TargetType.client_server = 0 ∷ 6 ∷ 7 ∷ 10 ∷ 12 ∷ []
mode_delta_indices OperationMode.round_trip TargetType.client_server =
    0 ∷ 1 ∷ 2 ∷ 3 ∷ 4 ∷ 5 ∷ 6 ∷ 7 ∷ 8 ∷ 9 ∷ 10 ∷ 11 ∷ 12 ∷ 13 ∷ []

-- (uint64_t)atoll(s), with atoll the long of strtol.
unfoldable pub atoll_u64 : Bytes → ℕ
atoll_u64 s =
    let (negative, value, rest) = strtol s in if negative then (2 ^ 64 - value) % 2 ^ 64 else value

-- strchr(s, '.') + 1, if there is one.
unfoldable pub after_dot : Bytes → Option Bytes
after_dot [] = none
after_dot (c ∷ s) = if c == b'.' then some s else after_dot s

-- The nine digits behind the dot, filled up with zeros.
abbrev pub nine_digits : Bytes → Bytes
nine_digits s = take 9 s ++ replicate (9 - length (take 9 s)) b'0'

unfoldable pub parse_timestamp_ns : Bytes → ℕ
unfolding after_dot
parse_timestamp_ns ts_str =
    let seconds = atoll_u64 ts_str in
    if str_eq ts_str (codes "NULL") then 0 else elim (after_dot ts_str) [
      | none ↦ seconds * 1000000000 % 2 ^ 64
      | some frac ↦ (seconds * 1000000000 + atoll_u64 (nine_digits frac)) % 2 ^ 64
    ]

-- `delta_result_t`
pub record DeltaResult : Type 0 where
  pub delta_whole_us : ℕ
  pub delta_frac_ns : ℕ
  pub valid : ℕ

abbrev pub no_delta : DeltaResult
no_delta = record { delta_whole_us = 0; delta_frac_ns = 0; valid = 0 }

unfoldable pub calculate_delta_fast : ℕ → ℕ → DeltaResult
calculate_delta_fast ts_a_ns ts_b_ns =
    let delta_ns = ts_b_ns - ts_a_ns in
    if ts_a_ns == 0 || ts_b_ns == 0 || leb ts_b_ns ts_a_ns then no_delta else record {
      delta_whole_us = delta_ns / 1000 % 2 ^ 32;
      delta_frac_ns = delta_ns % 1000;
      valid = 1;
    }

-- One round of the loop of `calculate_mode_deltas`.
unfoldable pub record_delta : JoinRecord → ℕ → DeltaResult
record_delta r delta_idx =
    let def = get_or all_delta_definitions delta_idx (define_column 0 0 "" 0) in
    calculate_delta_fast (parse_timestamp_ns (get_or r.timestamps def.ts_a_field []))
      (parse_timestamp_ns (get_or r.timestamps def.ts_b_field []))

unfoldable pub calculate_mode_deltas : JoinRecord → OperationMode → TargetType → List DeltaResult
unfolding record_delta
calculate_mode_deltas r mode target = map (record_delta r) (mode_delta_indices mode target)
