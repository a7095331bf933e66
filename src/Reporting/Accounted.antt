-- ===== src/Reporting/Accounted.antt =====
-- The lines of the display of src/timestamp_common.c over a run.
use trading_latency_benchmar.Prelude.{
  ℕ, ◌+◌, ◌-◌, ◌/◌, ◌^◌, ◌≤◌, ◌<◌, ◌≡◌, true, false, Option, none, some, List, [], ◌∷◌,
}
use trading_latency_benchmar.Reporting.{
  StatsState, stats_signal_handler_hotpath, Shown, both, tx_only, rx_only, display_stats_if_ready,
}

-- The packets of a line.
abbrev pub shown_sent : Option Shown → ℕ
shown_sent none = 0
shown_sent (some (both elapsed tx rx)) = tx
shown_sent (some (tx_only elapsed tx)) = tx
shown_sent (some (rx_only elapsed rx)) = 0

abbrev pub shown_received : Option Shown → ℕ
shown_received none = 0
shown_received (some (both elapsed tx rx)) = rx
shown_received (some (tx_only elapsed tx)) = 0
shown_received (some (rx_only elapsed rx)) = rx

-- A signal for each second, with the counters at it, and the display behind it: the packets that all lines
-- show, sent and received, and the state.
unfoldable pub run_seconds : ℕ → List (ℕ × ℕ) → StatsState → ℕ × ℕ × StatsState
unfolding stats_signal_handler_hotpath display_stats_if_ready
run_seconds start [] s = (0, 0, s)
run_seconds start ((sent, received) ∷ seconds) s =
    let now = s.last_time + 1 in
    let (line, t) =
      display_stats_if_ready now start (stats_signal_handler_hotpath sent received now s) in
    let (more_sent, more_received, end) = run_seconds start seconds t in
    (shown_sent line + more_sent, shown_received line + more_received, end)

-- Counters that only grow, within 64 bits.
abbrev pub Grow : ℕ → ℕ → List (ℕ × ℕ) → Type 0
Grow sent received [] = Unit
Grow sent received ((sent', received') ∷ seconds) =
    ((sent ≤ sent') × (sent' < 2 ^ 64))
    × ((received ≤ received') × (received' < 2 ^ 64))
    × Grow sent' received' seconds

-- A second of a run: what its line shows, and the state behind it.
record IsSecond (sent received : ℕ) (s : StatsState) (line : Option Shown) (t : StatsState)
    : Type 0 where
  sent_shown : shown_sent line ≡ sent - s.last_sent
  received_shown : shown_received line ≡ received - s.last_received
  idle : t.stats_ready ≡ false
  sent_now : t.last_sent ≡ sent
  received_now : t.last_received ≡ received
  time_now : t.last_time ≡ s.last_time + 1

module _ (start sent received : ℕ) (s : StatsState) (running : 0 < s.last_time)
    (idle : s.stats_ready ≡ false) (up : s.last_sent ≤ sent) (word : sent < 2 ^ 64)
    (up' : s.last_received ≤ received) (word' : received < 2 ^ 64) where
  -- The state behind the signal, where something was sent or received.
  reported : StatsState
  reported = record {
    last_sent = sent;
    last_received = received;
    last_time = s.last_time + 1;
    current_sent_pps = (sent - s.last_sent) / 1;
    current_received_pps = (received - s.last_received) / 1;
    stats_ready = true;
  }
