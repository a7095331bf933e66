-- ===== src/Options/Tests.antt =====
-- Concrete arguments of the server and of the client.
use trading_latency_benchmar.Prelude.{◌≡◌, refl, arith, true, some, List, [], ◌∷◌, codes}
use trading_latency_benchmar.Join.Line.{skip_spaces, scan_sign, scan_digits, starts_with_digit}
use trading_latency_benchmar.Options.{atoi, parse_stats_argument}
use trading_latency_benchmar.Options.Stats.{Keeps, parse_stats_argument-Keeps}
use trading_latency_benchmar.Options.Printed.Tokens.{kilo, print_stats_argument}
use trading_latency_benchmar.Options.Printed.{parse_stats_argument-print}
use trading_latency_benchmar.Options.Kept.{default_stats-IsInRange}
use trading_latency_benchmar.Options.Client.{ClientOption, ClientConfig, client_options}
use trading_latency_benchmar.Options.Client.Checked.{client_options-IsRunnable}
use trading_latency_benchmar.Options.Client
use trading_latency_benchmar.Options.Client.Checked
use trading_latency_benchmar.Options.Main.{
  ServerOption, ServerConfig, default_stats, default_config, set_option, server_options,
}
use trading_latency_benchmar.Options.Main.Checked.{IsRunnable, server_options-IsRunnable}

parse_stats_argument-Keeps_example :
    Keeps default_stats (parse_stats_argument true (codes "20K,bw=5") default_stats)
parse_stats_argument-Keeps_example =
    parse_stats_argument-Keeps true (codes "20K,bw=5") default_stats default_stats-IsInRange

parse_stats_argument-print_example :
    parse_stats_argument true (print_stats_argument kilo 20 5 200) default_stats
    ≡ some (record default_stats { buffer_size = 20000; bin_width_us = 5; max_bins = 200 })
parse_stats_argument-print_example =
    parse_stats_argument-print kilo 20 5 200 default_stats refl refl refl (omega arith)

-- A product that wraps around is taken for a size in range.
wrapped_size :
    parse_stats_argument true (codes "18446744073710M") default_stats
    ≡ some (record default_stats { buffer_size = 448384 })
unfolding parse_stats_argument starts_with_digit scan_sign skip_spaces scan_digits
wrapped_size = refl

abbrev options : List ServerOption
options =
    ServerOption.rx_interface (codes "eth0")
    ∷ ServerOption.port (codes "5000")
    ∷ ServerOption.stats (some (codes "20K,bw=5"))
    ∷ ServerOption.one_way
    ∷ []

abbrev config : ServerConfig
config = record default_config {
  rx_if_name = some (codes "eth0");
  port = 5000;
  one_way_mode = true;
  stats_config = record { enabled = 1; buffer_size = 20000; bin_width_us = 5; max_bins = 1000 };
}

server_options-IsRunnable_example : IsRunnable config
unfolding server_options set_option parse_stats_argument starts_with_digit scan_sign skip_spaces
    scan_digits atoi
server_options-IsRunnable_example = server_options-IsRunnable [] true options config refl

-- A round-trip client with a negative port for the answers, which is started.
abbrev client_arguments : List ClientOption
client_arguments =
    ClientOption.dst_ip (codes "10.0.0.2")
    ∷ ClientOption.dst_port (codes "5000")
    ∷ ClientOption.pps (codes "1000")
    ∷ ClientOption.pkt_size (codes "64")
    ∷ ClientOption.rx_port (codes "-1")
    ∷ ClientOption.rx_interface (codes "eth1")
    ∷ ClientOption.round_trip
    ∷ []

abbrev client_config : ClientConfig
client_config = record Client.default_client {
  dest_ip = some (codes "10.0.0.2");
  dest_port = 5000;
  pps = 1000;
  packet_size = 64;
  rx_port = 4294967295;
  rx_interface = some (codes "eth1");
  round_trip_mode = true;
}

client_options-IsRunnable_example : Checked.IsRunnable client_config
unfolding client_options Client.set_client_option starts_with_digit scan_sign skip_spaces
    scan_digits atoi
client_options-IsRunnable_example =
    client_options-IsRunnable [] true client_arguments client_config refl
