-- ===== src/Timing/Tests.antt =====
-- A concrete run whose time is over at its second round.
use trading_latency_benchmar.Prelude.{ℕ, ◌≤◌, refl, arith, false, [], ◌∷◌, ◌++◌, length}
use trading_latency_benchmar.Timing.{Timing, client_limits, Instant, live_rounds}
use trading_latency_benchmar.Timing.Live.{live_rounds-over}

abbrev at : ℕ → Instant × ℕ
at time = (
  record { graceful_shutdown = false; cycles = 10; current_time = time; cycles_after = 10 },
  time,
)

abbrev start : Timing
start = record { loop_counter = 0; last_time_check_cycles = 0 }

live_rounds-over_example :
    length (
      live_rounds
        (client_limits 1000 1 240000000)
        start
        (at 1000 ∷ [] ++ at 1000001000 ∷ at 1000001001 ∷ []))
    ≤ 50
live_rounds-over_example =
    live_rounds-over (client_limits 1000 1 240000000) start (at 1000 ∷ [])
      (at 1000001000 ∷ at 1000001001 ∷ []) (omega arith) refl (refl, (refl, tt))
