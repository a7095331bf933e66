-- ===== src/Stats/Entry.antt =====
-- The entries of the statistics buffer and the modes, from include/timestamp_common.h.
use trading_latency_benchmar.Prelude.{ℕ, ◌%◌, ◌^◌, List, set, replicate}

-- `timestamp_mode_t`; a C enum variable may hold another value, as `other`.
pub data TimestampMode : Type 0 where
  client_oneway client_roundtrip server_oneway server_roundtrip : TimestampMode
  other : ℕ → TimestampMode

-- `(uint8_t)entry_type`
pub timestamp_mode_code : TimestampMode → ℕ
timestamp_mode_code TimestampMode.client_oneway = 1
timestamp_mode_code TimestampMode.client_roundtrip = 2
timestamp_mode_code TimestampMode.server_oneway = 3
timestamp_mode_code TimestampMode.server_roundtrip = 4
timestamp_mode_code (TimestampMode.other v) = v % 2 ^ 8

-- `stats_mode_type_t`
pub data StatsMode : Type 0 where
  client_oneway client_roundtrip server_oneway server_roundtrip : StatsMode
  other : ℕ → StatsMode

-- `(uint8_t)mode`
pub stats_mode_code : StatsMode → ℕ
stats_mode_code StatsMode.client_oneway = 1
stats_mode_code StatsMode.client_roundtrip = 2
stats_mode_code StatsMode.server_oneway = 3
stats_mode_code StatsMode.server_roundtrip = 4
stats_mode_code (StatsMode.other v) = v % 2 ^ 8

-- `stats_config_t`
pub record StatsConfig : Type 0 where
  pub enabled : ℕ
  pub buffer_size : ℕ
  pub bin_width_us : ℕ
  pub max_bins : ℕ

-- `stats_entry_t`; `timestamp_ns` has twelve places and `padding` four.
pub record StatsEntry : Type 0 where
  pub seq_num : ℕ
  pub timestamp_ns : List ℕ
  pub src_port : ℕ
  pub entry_type : ℕ
  pub timestamp_mask : ℕ
  pub padding : List ℕ

-- What zeroed memory holds.
abbrev pub zero_entry : StatsEntry
zero_entry = record {
  seq_num = 0;
  timestamp_ns = replicate 12 0;
  src_port = 0;
  entry_type = 0;
  timestamp_mask = 0;
  padding = replicate 4 0;
}

-- `get_timestamp_mask_for_mode`
unfoldable pub get_timestamp_mask_for_mode : TimestampMode → ℕ
get_timestamp_mask_for_mode TimestampMode.client_oneway = 0x07
get_timestamp_mask_for_mode TimestampMode.client_roundtrip = 0x7f
get_timestamp_mask_for_mode TimestampMode.server_oneway = 0x80
get_timestamp_mask_for_mode TimestampMode.server_roundtrip = 0xf8
get_timestamp_mask_for_mode (TimestampMode.other v) = 0x00

-- entry->timestamp_ns[i] = ns
abbrev pub set_timestamp : ℕ → ℕ → StatsEntry → StatsEntry
set_timestamp i ns e = record e { timestamp_ns = set e.timestamp_ns i ns }
