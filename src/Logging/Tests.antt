-- ===== src/Logging/Tests.antt =====
-- A concrete argument of `--log-component`.
use trading_latency_benchmar.Prelude.{◌+◌, ◌-◌, ◌^◌, ◌≡◌, ◌↔◌, refl, arith, true, codes}
use trading_latency_benchmar.Logging.{
  LogState, default_log, hw_log_enable_component, hw_log_disable_component, is_component_enabled,
  parse_log_components,
}
use trading_latency_benchmar.Logging.Names.{IsListed}
use trading_latency_benchmar.Logging.Components.{parse_log_components-enabled}
use trading_latency_benchmar.Options.Tokens.{strtok_all}

-- SERVER and CSV, with the bits above the seven components as they were.
abbrev two_enabled : LogState
two_enabled = record { level = 2; component_mask = 2 ^ 64 - 128 + 4 + 16 }

parse_log_components-enabled_example :
    (is_component_enabled 4 two_enabled ≡ true) ↔ IsListed 4 (strtok_all b',' (codes "SERVER, CSV"))
unfolding parse_log_components strtok_all hw_log_enable_component hw_log_disable_component
parse_log_components-enabled_example =
    parse_log_components-enabled 4 true (codes "SERVER, CSV") default_log two_enabled (omega arith)
      refl
