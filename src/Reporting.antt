-- ===== src/Reporting.antt =====
-- The report of packets per second: `stats_state_t`, the handler of the alarm signal and the display of
-- src/timestamp_common.c.
pub mod Accounted
mod Tests
use trading_latency_benchmar.Prelude.{
  ℕ, ◌+◌, ◌-◌, ◌/◌, ◌%◌, ◌^◌, Bool, true, false, ◌&&◌, ◌||◌, Option, none, some, ltb, if◌then◌else◌,
}

-- `stats_state_t`; times are seconds.
pub record StatsState : Type 0 where
  pub last_sent : ℕ
  pub last_received : ℕ
  pub last_time : ℕ
  pub current_sent_pps : ℕ
  pub current_received_pps : ℕ
  pub stats_ready : Bool

-- The state that `setup_stats_reporting_hotpath` leaves at a time.
abbrev pub setup_stats_reporting_hotpath : ℕ → StatsState
setup_stats_reporting_hotpath program_start_time = record {
  last_sent = 0;
  last_received = 0;
  last_time = program_start_time;
  current_sent_pps = 0;
  current_received_pps = 0;
  stats_ready = false;
}

-- A difference of two counters of 64 bits.
abbrev pub minus64 : ℕ → ℕ → ℕ
minus64 a b = (a + 2 ^ 64 - b) % 2 ^ 64

-- The handler, for the counters and the time that it reads.
unfoldable pub stats_signal_handler_hotpath : ℕ → ℕ → ℕ → StatsState → StatsState
stats_signal_handler_hotpath current_sent current_received current_time s =
    let sent_diff = minus64 current_sent s.last_sent in
    let received_diff = minus64 current_received s.last_received in
    let time_diff = current_time - s.last_time in
    let next = record s {
      last_sent = current_sent;
      last_received = current_received;
      last_time = current_time;
    } in
    if ltb s.last_time current_time && ltb 0 s.last_time && (ltb 0 sent_diff || ltb 0 received_diff)
    then record next {
      current_sent_pps = sent_diff / time_diff;
      current_received_pps = received_diff / time_diff;
      stats_ready = true;
    }
    else next

-- A line of the display, with the time since the start: the clock does not go back before it.
pub data Shown : Type 0 where
  both : ℕ → ℕ → ℕ → Shown
  tx_only rx_only : ℕ → ℕ → Shown

unfoldable pub display_stats_if_ready : ℕ → ℕ → StatsState → Option Shown × StatsState
display_stats_if_ready now program_start_time s =
    let elapsed = now - program_start_time in
    let sent_pps = s.current_sent_pps in
    let received_pps = s.current_received_pps in
    let line =
      if ltb 0 sent_pps && ltb 0 received_pps
      then some (both elapsed sent_pps received_pps)
      else if ltb 0 sent_pps
      then some (tx_only elapsed sent_pps)
      else if ltb 0 received_pps
      then some (rx_only elapsed received_pps)
      else none in
    if s.stats_ready then (line, record s { stats_ready = false }) else (none, s)
