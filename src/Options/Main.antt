-- ===== src/Options/Main.antt =====
-- The options of `main` of src/timestamp_server.c: the loop over what `getopt_long` gives, and the checks
-- behind it.
pub mod Checked
use trading_latency_benchmar.Prelude.{
  ℕ, ◌+◌, ◌-◌, ◌*◌, ◌%◌, ◌^◌, min, Bool, true, false, ◌&&◌, ◌||◌, not, Option, none, some, List, [],
  ◌∷◌, ◌++◌, length, take, ltb, leb, ◌==◌, if◌then◌else◌, Bytes, codes, str_eq,
}
use trading_latency_benchmar.Stats.Entry.{StatsConfig}
use trading_latency_benchmar.Logging.{LogState, default_log, set_log_level, parse_log_components}
use trading_latency_benchmar.Options.{atoi, is_negative, parse_stats_argument}

-- An option with its argument; `usage` is help or an option that is not known.
pub data ServerOption : Type 0 where
  rx_interface tx_interface port log_cpu rx_cpu tx_cpu time tx_timestamp_cpu log_level
        log_component :
      Bytes → ServerOption
  output_csv stats : Option Bytes → ServerOption
  one_way round_trip usage : ServerOption

-- `csv_config_t`
pub record CsvConfig : Type 0 where
  pub csv_enabled : Bool
  pub csv_filename : Bytes
  pub tx_csv_filename : Bytes
  pub log_cpu : ℕ

-- The variables of `main` and of the file that the options set. An int is its 32 bits.
pub record ServerConfig : Type 0 where
  pub rx_if_name : Option Bytes
  pub tx_if_name : Option Bytes
  pub port : ℕ
  pub one_way_mode : Bool
  pub round_trip_mode : Bool
  pub rx_cpu : ℕ
  pub tx_cpu : ℕ
  pub time_seconds : ℕ
  pub tx_timestamp_cpu : ℕ
  pub csv_config : CsvConfig
  pub stats_config : StatsConfig
  pub log : LogState

abbrev pub default_stats : StatsConfig
default_stats = record { enabled = 0; buffer_size = 5000000; bin_width_us = 10; max_bins = 1000 }

abbrev pub default_config : ServerConfig
default_config = record {
  rx_if_name = none;
  tx_if_name = none;
  port = 0;
  one_way_mode = false;
  round_trip_mode = false;
  rx_cpu = 4;
  tx_cpu = 5;
  time_seconds = 0;
  tx_timestamp_cpu = 0;
  csv_config = record { csv_enabled = false; csv_filename = []; tx_csv_filename = []; log_cpu = 0 };
  stats_config = default_stats;
  log = default_log;
}

-- The text before the last dot and the text from it on, if there is a dot.
pub split_last_dot : Bytes → Option (Bytes × Bytes)
split_last_dot [] = none
split_last_dot (c ∷ s) = elim (split_last_dot s) [
  | some (before, behind) ↦ some (c ∷ before, behind)
  | none ↦ if c == b'.' then some ([], c ∷ s) else none
]

-- The name of the TX log, cut to 255 bytes as the name itself.
unfoldable pub tx_filename : Bytes → Bytes
tx_filename name = take 255 (elim (split_last_dot name) [
  | some (before, behind) ↦ before ++ codes "_tx" ++ behind
  | none ↦ name ++ codes "_tx.csv"
])

-- The argument is the name for the CSV file that is used if none is given, which has the process number.
unfoldable pub set_csv : Bytes → Option Bytes → CsvConfig → CsvConfig
unfolding tx_filename
set_csv default_name none c = record c {
  csv_enabled = true;
  csv_filename = take 255 default_name;
  tx_csv_filename = tx_filename (take 255 default_name);
}
set_csv default_name (some name) c = record c {
  csv_enabled = true;
  csv_filename = take 255 name;
  tx_csv_filename = tx_filename (take 255 name);
}

unfoldable pub set_stats : Bool → Option Bytes → StatsConfig → Option StatsConfig
set_stats memory none c =
    some (record { enabled = 1; buffer_size = 5000000; bin_width_us = 10; max_bins = 1000 })
set_stats memory (some arg) c = parse_stats_argument memory arg (record c { enabled = 1 })

-- The body of the loop; `none` is an exit with an error.
unfoldable pub set_option : Bytes → Bool → ServerOption → ServerConfig → Option ServerConfig
unfolding set_csv set_stats
set_option default_name memory (ServerOption.rx_interface arg) c =
    some (record c { rx_if_name = some arg })
set_option default_name memory (ServerOption.tx_interface arg) c =
    some (record c { tx_if_name = some arg })
set_option default_name memory (ServerOption.port arg) c = some (record c { port = atoi arg })
set_option default_name memory (ServerOption.log_cpu arg) c =
    if is_negative (atoi arg)
    then none
    else some (record c { csv_config = record c.csv_config { log_cpu = atoi arg } })
set_option default_name memory (ServerOption.rx_cpu arg) c = some (record c { rx_cpu = atoi arg })
set_option default_name memory (ServerOption.tx_cpu arg) c = some (record c { tx_cpu = atoi arg })
set_option default_name memory (ServerOption.time arg) c =
    some (record c { time_seconds = atoi arg })
set_option default_name memory (ServerOption.tx_timestamp_cpu arg) c =
    if is_negative (atoi arg) then none else some (record c { tx_timestamp_cpu = atoi arg })
set_option default_name memory (ServerOption.output_csv arg) c =
    some (record c { csv_config = set_csv default_name arg c.csv_config })
set_option default_name memory (ServerOption.stats arg) c =
    elim (set_stats memory arg c.stats_config) [
      | none ↦ none
      | some s ↦ some (record c { stats_config = s })
    ]
set_option default_name memory (ServerOption.log_level arg) c = elim (set_log_level arg c.log) [
  | none ↦ none
  | some l ↦ some (record c { log = l })
]
set_option default_name memory (ServerOption.log_component arg) c =
    elim (parse_log_components memory arg c.log) [
      | none ↦ none
      | some l ↦ some (record c { log = l })
    ]
set_option default_name memory ServerOption.one_way c = some (record c { one_way_mode = true })
set_option default_name memory ServerOption.round_trip c =
    some (record c { round_trip_mode = true })
set_option default_name memory ServerOption.usage c = none

unfoldable pub set_options : Bytes → Bool → List ServerOption → ServerConfig → Option ServerConfig
set_options default_name memory [] c = some c
set_options default_name memory (o ∷ os) c = elim (set_option default_name memory o c) [
  | none ↦ none
  | some next ↦ set_options default_name memory os next
]

abbrev pub is_some : Option Bytes → Bool
is_some none = false
is_some (some name) = true

-- The checks in their order; true is that all are passed.
unfoldable pub is_accepted : ServerConfig → Bool
is_accepted c =
    if not (c.csv_config.log_cpu == 0) && not c.csv_config.csv_enabled
    then false
    else if not (is_some c.rx_if_name) || c.port == 0
    then false
    else if is_negative c.time_seconds
    then false
    else if c.one_way_mode && c.round_trip_mode
    then false
    else if not c.one_way_mode && not c.round_trip_mode
    then false
    else if c.round_trip_mode && not (is_some c.tx_if_name)
    then false
    else if is_negative c.port || ltb 65535 c.port
    then false
    else if c.one_way_mode
    then if not (c.tx_cpu == 5)
      then false
      else if not (c.tx_timestamp_cpu == 0)
      then false
      else true
    else if c.round_trip_mode
    then if not (c.rx_cpu == 4) && c.tx_cpu == 5
      then false
      else if not (c.tx_cpu == 5) && c.rx_cpu == 4
      then false
      else true
    else true

-- `main` up to the start of the server.
unfoldable pub server_options : Bytes → Bool → List ServerOption → Option ServerConfig
unfolding set_options is_accepted
server_options default_name memory os = elim (set_options default_name memory os default_config) [
  | none ↦ none
  | some c ↦ if is_accepted c then some c else none
]
