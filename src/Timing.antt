-- ===== src/Timing.antt =====
-- The check of the time at the head of the loops of `run_client_oneway`, `run_client_roundtrip`
-- (src/timestamp_client.c), `run_server_oneway` and `run_server_roundtrip` (src/timestamp_server.c).
pub mod Live
mod Tests
use trading_latency_benchmar.Prelude.{
  ℕ, ◌+◌, ◌-◌, ◌*◌, ◌%◌, ◌^◌, Bool, ◌&&◌, ◌||◌, Option, none, some, List, [], ◌∷◌, ltb, leb, ◌==◌,
  if◌then◌else◌,
}

-- The variables of the check.
pub record Timing : Type 0 where
  pub loop_counter : ℕ
  pub last_time_check_cycles : ℕ

-- What stays the same during a run: whether its time is limited, when it is over, and the cycles after
-- which the clock is looked at.
pub record Limits : Type 0 where
  pub limited : Bool
  pub is_over : ℕ → Bool
  pub max_cycles_between_checks : ℕ

-- The client ends at a time, if there is one; the server after a duration, if there is one.
abbrev pub client_limits : ℕ → ℕ → ℕ → Limits
client_limits start_time duration_seconds max_cycles =
    let end_time = start_time + duration_seconds * 1000000000 in
    record {
      limited = ltb 0 duration_seconds;
      is_over = λ current_time. leb end_time current_time;
      max_cycles_between_checks = max_cycles;
    }

abbrev pub server_limits : ℕ → ℕ → ℕ → Limits
server_limits start_time program_duration_ns max_cycles = record {
  limited = ltb 0 program_duration_ns;
  is_over = λ current_time. leb program_duration_ns (current_time - start_time);
  max_cycles_between_checks = max_cycles;
}

-- What a round finds: whether a shutdown is asked for, the counter of cycles, the clock, and the counter
-- behind the check.
pub record Instant : Type 0 where
  pub graceful_shutdown : Bool
  pub cycles : ℕ
  pub current_time : ℕ
  pub cycles_after : ℕ

-- Is the clock looked at? MAX_ITERATION_CHECK_INTERVAL is 50.
abbrev pub should_check_time : Limits → Instant → Timing → Bool
should_check_time limits now t =
    (t.loop_counter + 1) % 2 ^ 64 % 50 == 0
    || leb limits.max_cycles_between_checks
        ((now.cycles + 2 ^ 64 - t.last_time_check_cycles) % 2 ^ 64)

-- The check; `none` is the end of the loop.
unfoldable pub check_time : Limits → Instant → Timing → Option Timing
check_time limits now t =
    let counted = record t { loop_counter = (t.loop_counter + 1) % 2 ^ 64 } in
    if now.graceful_shutdown
    then none
    else if should_check_time limits now t && limits.limited
    then if limits.is_over now.current_time
      then none
      else some (record counted { last_time_check_cycles = now.cycles_after })
    else some counted

-- The rounds whose bodies are reached, of those that the time brings.
unfoldable pub live_rounds {ℓ} : {A : Type ℓ} → Limits → Timing → List (Instant × A) → List A
unfolding check_time
live_rounds limits t [] = []
live_rounds limits t ((now, round) ∷ rounds) = elim (check_time limits now t) [
  | none ↦ []
  | some next ↦ round ∷ live_rounds limits next rounds
]
