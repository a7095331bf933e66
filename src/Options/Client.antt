-- ===== src/Options/Client.antt =====
-- The options of `main` of src/timestamp_client.c: the loop over what `getopt_long` gives, and the checks
-- behind it.
pub mod Checked
use trading_latency_benchmar.Prelude.{
  ℕ, Bool, true, false, ◌&&◌, ◌||◌, not, Option, none, some, List, [], ◌∷◌, ltb, ◌==◌,
  if◌then◌else◌, Bytes,
}
use trading_latency_benchmar.Stats.Entry.{StatsConfig}
use trading_latency_benchmar.Logging.{LogState, default_log, set_log_level, parse_log_components}
use trading_latency_benchmar.Options.{atoi, is_negative}
use trading_latency_benchmar.Options.Main.{CsvConfig, default_stats, set_csv, set_stats, is_some}

-- An option with its argument; `usage` is help or an option that is not known.
pub data ClientOption : Type 0 where
  dst_ip dst_port pps pkt_size tx_interface time tx_cpu rx_cpu rx_port rx_interface log_cpu
        tx_timestamp_cpu log_level log_component :
      Bytes → ClientOption
  output_csv stats : Option Bytes → ClientOption
  one_way round_trip usage : ClientOption

-- The variables of `main` and of the file that the options set. An int is its 32 bits.
pub record ClientConfig : Type 0 where
  pub dest_ip : Option Bytes
  pub dest_port : ℕ
  pub pps : ℕ
  pub packet_size : ℕ
  pub duration_seconds : ℕ
  pub tx_cpu : ℕ
  pub rx_cpu : ℕ
  pub rx_port : ℕ
  pub round_trip_mode : Bool
  pub one_way_mode : Bool
  pub tx_interface : Option Bytes
  pub rx_interface : Option Bytes
  pub tx_timestamp_cpu : ℕ
  pub csv_config : CsvConfig
  pub stats_config : StatsConfig
  pub log : LogState

abbrev pub default_client : ClientConfig
default_client = record {
  dest_ip = none;
  dest_port = 0;
  pps = 0;
  packet_size = 0;
  duration_seconds = 0;
  tx_cpu = 4;
  rx_cpu = 5;
  rx_port = 0;
  round_trip_mode = false;
  one_way_mode = false;
  tx_interface = none;
  rx_interface = none;
  tx_timestamp_cpu = 0;
  csv_config = record { csv_enabled = false; csv_filename = []; tx_csv_filename = []; log_cpu = 0 };
  stats_config = default_stats;
  log = default_log;
}

-- The body of the loop; `none` is an exit with an error. The first argument is the name for the CSV file
-- that is used if none is given.
unfoldable pub set_client_option : Bytes → Bool → ClientOption → ClientConfig → Option ClientConfig
unfolding set_csv set_stats
set_client_option default_name memory (ClientOption.dst_ip arg) c =
    some (record c { dest_ip = some arg })
set_client_option default_name memory (ClientOption.dst_port arg) c =
    some (record c { dest_port = atoi arg })
set_client_option default_name memory (ClientOption.pps arg) c = some (record c { pps = atoi arg })
set_client_option default_name memory (ClientOption.pkt_size arg) c =
    some (record c { packet_size = atoi arg })
set_client_option default_name memory (ClientOption.tx_interface arg) c =
    some (record c { tx_interface = some arg })
set_client_option default_name memory (ClientOption.time arg) c =
    some (record c { duration_seconds = atoi arg })
set_client_option default_name memory (ClientOption.tx_cpu arg) c =
    some (record c { tx_cpu = atoi arg })
set_client_option default_name memory (ClientOption.rx_cpu arg) c =
    some (record c { rx_cpu = atoi arg })
set_client_option default_name memory (ClientOption.rx_port arg) c =
    some (record c { rx_port = atoi arg })
set_client_option default_name memory (ClientOption.rx_interface arg) c =
    some (record c { rx_interface = some arg })
set_client_option default_name memory (ClientOption.log_cpu arg) c =
    if is_negative (atoi arg)
    then none
    else some (record c { csv_config = record c.csv_config { log_cpu = atoi arg } })
set_client_option default_name memory (ClientOption.tx_timestamp_cpu arg) c =
    if is_negative (atoi arg) then none else some (record c { tx_timestamp_cpu = atoi arg })
set_client_option default_name memory (ClientOption.log_level arg) c =
    elim (set_log_level arg c.log) [ none ↦ none | some l ↦ some (record c { log = l }) ]
set_client_option default_name memory (ClientOption.log_component arg) c =
    elim (parse_log_components memory arg c.log) [
      | none ↦ none
      | some l ↦ some (record c { log = l })
    ]
set_client_option default_name memory (ClientOption.output_csv arg) c =
    some (record c { csv_config = set_csv default_name arg c.csv_config })
set_client_option default_name memory (ClientOption.stats arg) c =
    elim (set_stats memory arg c.stats_config) [
      | none ↦ none
      | some s ↦ some (record c { stats_config = s })
    ]
set_client_option default_name memory ClientOption.one_way c =
    some (record c { one_way_mode = true })
set_client_option default_name memory ClientOption.round_trip c =
    some (record c { round_trip_mode = true })
set_client_option default_name memory ClientOption.usage c = none

unfoldable pub set_client_options :
    Bytes → Bool → List ClientOption → ClientConfig → Option ClientConfig
set_client_options default_name memory [] c = some c
set_client_options default_name memory (o ∷ os) c =
    elim (set_client_option default_name memory o c) [
      | none ↦ none
      | some next ↦ set_client_options default_name memory os next
    ]

-- x > 0 of an int.
abbrev pub is_positive : ℕ → Bool
is_positive x = not (x == 0) && not (is_negative x)

-- The checks that are for one of the modes.
unfoldable pub accepts_oneway : ClientConfig → Bool
accepts_oneway c =
    if not (c.rx_cpu == 5)
    then false
    else if is_positive c.rx_port
    then false
    else if is_some c.rx_interface
    then false
    else true

unfoldable pub accepts_roundtrip : ClientConfig → Bool
accepts_roundtrip c =
    if c.rx_port == 0
    then false
    else if not (is_some c.rx_interface)
    then false
    else if not (c.tx_cpu == 4) && c.rx_cpu == 5
    then false
    else if c.tx_cpu == 4 && not (c.rx_cpu == 5)
    then false
    else true

-- The checks in their order; true is that all are passed. MAX_PACKET_SIZE is 1500.
unfoldable pub accepts_client : ClientConfig → Bool
unfolding accepts_oneway accepts_roundtrip
accepts_client c =
    if not (c.csv_config.log_cpu == 0) && not c.csv_config.csv_enabled
    then false
    else if not c.one_way_mode && not c.round_trip_mode
    then false
    else if c.one_way_mode && c.round_trip_mode
    then false
    else if not (is_some c.dest_ip) || c.dest_port == 0 || c.pps == 0 || c.packet_size == 0
    then false
    else if not (is_positive c.dest_port) || ltb 65535 c.dest_port
    then false
    else if not (is_positive c.pps) || is_negative c.packet_size || ltb c.packet_size 12
    then false
    else if ltb 1500 c.packet_size
    then false
    else if is_negative c.duration_seconds
    then false
    else if is_positive c.rx_port && (not (is_positive c.rx_port) || ltb 65535 c.rx_port)
    then false
    else if c.one_way_mode
    then accepts_oneway c
    else accepts_roundtrip c

-- `main` up to the start of the client.
unfoldable pub client_options : Bytes → Bool → List ClientOption → Option ClientConfig
unfolding set_client_options accepts_client
client_options default_name memory os =
    elim (set_client_options default_name memory os default_client) [
      | none ↦ none
      | some c ↦ if accepts_client c then some c else none
    ]
