-- ===== src/Options/Main/Checked.antt =====
-- With what options `main` of src/timestamp_server.c starts the server.
use trading_latency_benchmar.Prelude.{
  ◌^◌, ◌≤◌, ◌<◌, ◌≡◌, arith, Bool, true, false, ◌↔◌, ◌||◌, not, none, some, List, [], ◌∷◌, ◌==◌,
  Bytes,
}
use trading_latency_benchmar.Logging.{set_log_level, parse_log_components}
use trading_latency_benchmar.Options.{atoi}
use trading_latency_benchmar.Options.Stats.{IsInRange}
use trading_latency_benchmar.Options.Kept.{
  InOrder, Left, default-InOrder, set_stats-IsInRange, not_negative-Left, elim-Left, then-Left,
  started-Left, anything,
}
use trading_latency_benchmar.Options.Main.{
  ServerOption, ServerConfig, default_config, set_csv, set_stats, set_option, set_options, is_some,
  is_accepted, server_options,
}

-- What the loop keeps of a configuration.
abbrev IsInOrder : ServerConfig → Type 0
IsInOrder c = InOrder c.stats_config c.csv_config.log_cpu c.tx_timestamp_cpu

module _ (default_name : Bytes) (memory : Bool) where
  set_option-IsInOrder :
      (o : ServerOption) (c : ServerConfig)
      → IsInOrder c
      → Left IsInOrder (set_option default_name memory o c)
  unfolding set_option set_csv
  set_option-IsInOrder (ServerOption.rx_interface arg) c v = v
  set_option-IsInOrder (ServerOption.tx_interface arg) c v = v
  set_option-IsInOrder (ServerOption.port arg) c v = v
  set_option-IsInOrder (ServerOption.rx_cpu arg) c v = v
  set_option-IsInOrder (ServerOption.tx_cpu arg) c v = v
  set_option-IsInOrder (ServerOption.time arg) c v = v
  set_option-IsInOrder (ServerOption.log_cpu arg) c v =
      not_negative-Left IsInOrder (atoi arg)
        (record c { csv_config = record c.csv_config { log_cpu = atoi arg } })
        (λ fits. record {
          stats_in = v.stats_in;
          log_cpu_in = fits;
          timestamp_cpu_in = v.timestamp_cpu_in;
        })
  set_option-IsInOrder (ServerOption.tx_timestamp_cpu arg) c v =
      not_negative-Left IsInOrder (atoi arg) (record c { tx_timestamp_cpu = atoi arg })
        (λ fits. record {
          stats_in = v.stats_in;
          log_cpu_in = v.log_cpu_in;
          timestamp_cpu_in = fits;
        })
  set_option-IsInOrder (ServerOption.output_csv none) c v = v
  set_option-IsInOrder (ServerOption.output_csv (some name)) c v = v
  set_option-IsInOrder (ServerOption.stats arg) c v =
      elim-Left IsInRange IsInOrder (λ s. record c { stats_config = s })
        (set_stats memory arg c.stats_config)
        (set_stats-IsInRange memory arg c.stats_config v.stats_in)
        (λ s range. record {
          stats_in = range;
          log_cpu_in = v.log_cpu_in;
          timestamp_cpu_in = v.timestamp_cpu_in;
        })
  set_option-IsInOrder (ServerOption.log_level arg) c v =
      elim-Left (λ l. Unit) IsInOrder (λ l. record c { log = l }) (set_log_level arg c.log)
        (anything (set_log_level arg c.log)) (λ l u. v)
  set_option-IsInOrder (ServerOption.log_component arg) c v =
      elim-Left (λ l. Unit) IsInOrder (λ l. record c { log = l })
        (parse_log_components memory arg c.log) (anything (parse_log_components memory arg c.log))
        (λ l u. v)
  set_option-IsInOrder ServerOption.one_way c v = v
  set_option-IsInOrder ServerOption.round_trip c v = v
  set_option-IsInOrder ServerOption.usage c v = tt

  set_options-IsInOrder :
      (os : List ServerOption) (c : ServerConfig)
      → IsInOrder c
      → Left IsInOrder (set_options default_name memory os c)
  unfolding set_options
  set_options-IsInOrder [] c v = v
  set_options-IsInOrder (o ∷ os) c v =
      then-Left IsInOrder (set_options default_name memory os) (set_option default_name memory o c)
        (set_option-IsInOrder o c v) (set_options-IsInOrder os)

-- A configuration that the server can run with.
pub record IsRunnable (c : ServerConfig) : Type 0 where
  pub one_mode : c.one_way_mode ≡ not c.round_trip_mode
  pub rx_named : is_some c.rx_if_name ≡ true
  pub tx_named : c.one_way_mode || is_some c.tx_if_name ≡ true
  pub port_low : 1 ≤ c.port
  pub port_high : c.port ≤ 65535
  pub time_in : c.time_seconds < 2 ^ 31
  pub tx_cpu_unused : c.round_trip_mode || c.tx_cpu == 5 ≡ true
  pub timestamp_cpu_unused : c.round_trip_mode || c.tx_timestamp_cpu == 0 ≡ true
  pub cpus_given : c.one_way_mode ≡ false → ((c.rx_cpu ≡ 4) ↔ (c.tx_cpu ≡ 5))
  pub log_cpu_in : c.csv_config.log_cpu < 2 ^ 31
  pub log_cpu_used : c.csv_config.csv_enabled || c.csv_config.log_cpu == 0 ≡ true
  pub timestamp_cpu_in : c.tx_timestamp_cpu < 2 ^ 31
  pub stats_in : IsInRange c.stats_config

accepted-IsRunnable : (c : ServerConfig) → IsInOrder c → is_accepted c ≡ true → IsRunnable c
unfolding is_accepted
accepted-IsRunnable c v ok = record {
  one_mode = ground (arith, ok);
  rx_named = ground (arith, ok);
  tx_named = ground (arith, ok);
  port_low = ground (arith, ok);
  port_high = ground (arith, ok);
  time_in = ground (arith, ok);
  tx_cpu_unused = ground (arith, ok);
  timestamp_cpu_unused = ground (arith, ok);
  cpus_given = ground (arith, ok);
  log_cpu_in = v.log_cpu_in;
  log_cpu_used = ground (arith, ok);
  timestamp_cpu_in = v.timestamp_cpu_in;
  stats_in = v.stats_in;
}

-- Whatever options are given, if the server is started then exactly one mode is chosen, the RX interface is
-- named, and the TX interface in round-trip mode, the port is from 1 to 65535, the running time and the
-- CPUs of the CSV log and of the TX timestamps are not negative, the former is set only with a log, in
-- one-way mode the TX CPU and that of the TX timestamps are their defaults, in round-trip mode the RX and
-- the TX CPU differ from their defaults both or not at all, and the numbers of the statistics are in range.
pub server_options-IsRunnable :
    (default_name : Bytes) (memory : Bool) (os : List ServerOption) (c : ServerConfig)
    → server_options default_name memory os ≡ some c
    → IsRunnable c
unfolding server_options
server_options-IsRunnable default_name memory os c e =
    let (v, ok) =
      started-Left IsInOrder is_accepted (set_options default_name memory os default_config) c
        (set_options-IsInOrder default_name memory os default_config default-InOrder) e in
    accepted-IsRunnable c v ok
