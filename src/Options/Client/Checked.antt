-- ===== src/Options/Client/Checked.antt =====
-- With what options `main` of src/timestamp_client.c starts the client.
use trading_latency_benchmar.Prelude.{
  ◌^◌, ◌≤◌, ◌<◌, ◌≡◌, arith, Bool, true, false, ◌||◌, not, none, some, List, [], ◌∷◌, ◌==◌, leb,
  ◌⊎◌, ◌↔◌, Bytes,
}
use trading_latency_benchmar.Logging.{set_log_level, parse_log_components}
use trading_latency_benchmar.Options.{atoi}
use trading_latency_benchmar.Options.Stats.{IsInRange}
use trading_latency_benchmar.Options.Kept.{
  InOrder, Left, default-InOrder, set_stats-IsInRange, not_negative-Left, elim-Left, then-Left,
  started-Left, anything,
}
use trading_latency_benchmar.Options.Main.{set_csv, set_stats, is_some}
use trading_latency_benchmar.Options.Client.{
  ClientOption, ClientConfig, default_client, set_client_option, set_client_options, accepts_oneway,
  accepts_roundtrip, accepts_client, client_options,
}

-- What the loop keeps of a configuration.
abbrev IsInOrder : ClientConfig → Type 0
IsInOrder c = InOrder c.stats_config c.csv_config.log_cpu c.tx_timestamp_cpu

module _ (default_name : Bytes) (memory : Bool) where
  set_client_option-IsInOrder :
      (o : ClientOption) (c : ClientConfig)
      → IsInOrder c
      → Left IsInOrder (set_client_option default_name memory o c)
  unfolding set_client_option set_csv
  set_client_option-IsInOrder (ClientOption.dst_ip arg) c v = v
  set_client_option-IsInOrder (ClientOption.dst_port arg) c v = v
  set_client_option-IsInOrder (ClientOption.pps arg) c v = v
  set_client_option-IsInOrder (ClientOption.pkt_size arg) c v = v
  set_client_option-IsInOrder (ClientOption.tx_interface arg) c v = v
  set_client_option-IsInOrder (ClientOption.time arg) c v = v
  set_client_option-IsInOrder (ClientOption.tx_cpu arg) c v = v
  set_client_option-IsInOrder (ClientOption.rx_cpu arg) c v = v
  set_client_option-IsInOrder (ClientOption.rx_port arg) c v = v
  set_client_option-IsInOrder (ClientOption.rx_interface arg) c v = v
  set_client_option-IsInOrder (ClientOption.log_cpu arg) c v =
      not_negative-Left IsInOrder (atoi arg)
        (record c { csv_config = record c.csv_config { log_cpu = atoi arg } })
        (λ fits. record {
          stats_in = v.stats_in;
          log_cpu_in = fits;
          timestamp_cpu_in = v.timestamp_cpu_in;
        })
  set_client_option-IsInOrder (ClientOption.tx_timestamp_cpu arg) c v =
      not_negative-Left IsInOrder (atoi arg) (record c { tx_timestamp_cpu = atoi arg })
        (λ fits. record {
          stats_in = v.stats_in;
          log_cpu_in = v.log_cpu_in;
          timestamp_cpu_in = fits;
        })
  set_client_option-IsInOrder (ClientOption.output_csv none) c v = v
  set_client_option-IsInOrder (ClientOption.output_csv (some name)) c v = v
  set_client_option-IsInOrder (ClientOption.stats arg) c v =
      elim-Left IsInRange IsInOrder (λ s. record c { stats_config = s })
        (set_stats memory arg c.stats_config)
        (set_stats-IsInRange memory arg c.stats_config v.stats_in)
        (λ s range. record {
          stats_in = range;
          log_cpu_in = v.log_cpu_in;
          timestamp_cpu_in = v.timestamp_cpu_in;
        })
  set_client_option-IsInOrder (ClientOption.log_level arg) c v =
      elim-Left (λ l. Unit) IsInOrder (λ l. record c { log = l }) (set_log_level arg c.log)
        (anything (set_log_level arg c.log)) (λ l u. v)
  set_client_option-IsInOrder (ClientOption.log_component arg) c v =
      elim-Left (λ l. Unit) IsInOrder (λ l. record c { log = l })
        (parse_log_components memory arg c.log) (anything (parse_log_components memory arg c.log))
        (λ l u. v)
  set_client_option-IsInOrder ClientOption.one_way c v = v
  set_client_option-IsInOrder ClientOption.round_trip c v = v
  set_client_option-IsInOrder ClientOption.usage c v = tt

  set_client_options-IsInOrder :
      (os : List ClientOption) (c : ClientConfig)
      → IsInOrder c
      → Left IsInOrder (set_client_options default_name memory os c)
  unfolding set_client_options
  set_client_options-IsInOrder [] c v = v
  set_client_options-IsInOrder (o ∷ os) c v =
      then-Left IsInOrder (set_client_options default_name memory os)
        (set_client_option default_name memory o c) (set_client_option-IsInOrder o c v)
        (set_client_options-IsInOrder os)

-- A configuration that the client can run with.
pub record IsRunnable (c : ClientConfig) : Type 0 where
  pub one_mode : c.one_way_mode ≡ not c.round_trip_mode
  pub dest_named : is_some c.dest_ip ≡ true
  pub port_low : 1 ≤ c.dest_port
  pub port_high : c.dest_port ≤ 65535
  pub pps_low : 1 ≤ c.pps
  pub pps_high : c.pps < 2 ^ 31
  pub size_low : 12 ≤ c.packet_size
  pub size_high : c.packet_size ≤ 1500
  pub duration_in : c.duration_seconds < 2 ^ 31
  pub rx_named : is_some c.rx_interface ≡ c.round_trip_mode
  pub rx_port_unused : c.round_trip_mode || c.rx_port == 0 || leb (2 ^ 31) c.rx_port ≡ true
  pub rx_cpu_unused : c.round_trip_mode || c.rx_cpu == 5 ≡ true
  pub rx_port_given : c.round_trip_mode ≡ true → 1 ≤ c.rx_port
  pub rx_port_in : (c.rx_port ≤ 65535) ⊎ (2 ^ 31 ≤ c.rx_port)
  pub cpus_given : c.one_way_mode ≡ false → ((c.tx_cpu ≡ 4) ↔ (c.rx_cpu ≡ 5))
  pub log_cpu_in : c.csv_config.log_cpu < 2 ^ 31
  pub log_cpu_used : c.csv_config.csv_enabled || c.csv_config.log_cpu == 0 ≡ true
  pub timestamp_cpu_in : c.tx_timestamp_cpu < 2 ^ 31
  pub stats_in : IsInRange c.stats_config

accepted-IsRunnable : (c : ClientConfig) → IsInOrder c → accepts_client c ≡ true → IsRunnable c
unfolding accepts_client accepts_oneway accepts_roundtrip
accepted-IsRunnable c v ok = record {
  one_mode = ground (arith, ok);
  dest_named = ground (arith, ok);
  port_low = ground (arith, ok);
  port_high = ground (arith, ok);
  pps_low = ground (arith, ok);
  pps_high = ground (arith, ok);
  size_low = ground (arith, ok);
  size_high = ground (arith, ok);
  duration_in = ground (arith, ok);
  rx_named = ground (arith, ok);
  rx_port_unused = ground (arith, ok);
  rx_cpu_unused = ground (arith, ok);
  rx_port_given = ground (arith, ok);
  rx_port_in = ground (arith, ok);
  cpus_given = ground (arith, ok);
  log_cpu_in = v.log_cpu_in;
  log_cpu_used = ground (arith, ok);
  timestamp_cpu_in = v.timestamp_cpu_in;
  stats_in = v.stats_in;
}

-- Whatever options are given, if the client is started then exactly one mode is chosen, the destination is
-- named with a port from 1 to 65535, at least one packet per second is to be sent, of 12 to 1500 bytes, for
-- a time that is not negative; the RX interface is named in round-trip mode and in no other; a port for the
-- answers, not zero, is given in round-trip mode, no positive one (as an int) in one-way mode, and a positive
-- one is at most 65535; in one-way mode the RX CPU is its default, in round-trip mode the TX and the RX CPU
-- differ from their defaults both or not at all; the CPUs of the CSV log and of the TX timestamps are not
-- negative, the former is set only with a log, and the numbers of the statistics are in range.
pub client_options-IsRunnable :
    (default_name : Bytes) (memory : Bool) (os : List ClientOption) (c : ClientConfig)
    → client_options default_name memory os ≡ some c
    → IsRunnable c
unfolding client_options
client_options-IsRunnable default_name memory os c e =
    let (v, ok) =
      started-Left IsInOrder accepts_client
        (set_client_options default_name memory os default_client) c
        (set_client_options-IsInOrder default_name memory os default_client default-InOrder) e in
    accepted-IsRunnable c v ok
