-- ===== src/Join/Deltas/Exact.antt =====
-- The two parts of a delta of `calculate_delta_fast`.
use trading_latency_benchmar.Prelude.{ℕ, ◌+◌, ◌-◌, ◌*◌, ◌^◌, ◌<◌, ◌≡◌, ◌≢◌, arith, ◌↔◌}
use trading_latency_benchmar.Join.Deltas.{DeltaResult, calculate_delta_fast}

-- What `calculate_delta_fast` gives for two timestamps.
pub record IsExact (ts_a_ns ts_b_ns : ℕ) (d : DeltaResult) : Type 0 where
  pub known : (d.valid ≡ 1) ↔ ((ts_a_ns ≢ 0) × (ts_a_ns < ts_b_ns))
  pub value : 1000 * d.delta_whole_us + d.delta_frac_ns ≡ d.valid * (ts_b_ns - ts_a_ns)
  pub fraction : d.delta_frac_ns < 1000

-- For timestamps less than 2^32 microseconds apart the delta is valid exactly if the first is not zero
-- and the second is later; then its whole microseconds and the rest, which is below 1000 ns, make up
-- the difference. Else both parts are zero.
pub calculate_delta_fast-IsExact :
    (ts_a_ns ts_b_ns : ℕ)
    → ts_b_ns - ts_a_ns < 1000 * 2 ^ 32
    → IsExact ts_a_ns ts_b_ns (calculate_delta_fast ts_a_ns ts_b_ns)
unfolding calculate_delta_fast
calculate_delta_fast-IsExact a b near = record {
  known = ground arith;
  value = ground arith;
  fraction = ground arith;
}
