-- ===== src/Stats/Percentile/Order.antt =====
-- The order of the values and of the percentiles, for `exact_percentiles_get` of
-- src/timestamp_common.c.
pub mod Interpolation
use trading_latency_benchmar.Prelude.{
  ℕ, ◌+◌, ◌-◌, ◌*◌, ◌/◌, ◌%◌, ◌≤◌, ◌<◌, ◌≡◌, ◌↔◌, ◌∙◌, ap, ap₂, some, List, ◌++◌, get_or, take,
  drop, inl, inr, ◌⊎◌,
}
use native.Mathlib.Decide.{dec_lt, ℕ_discrete}
use trading_latency_benchmar.Sort.{after, qsort}
use trading_latency_benchmar.Sort.Laws.{IsSorted, count}
use trading_latency_benchmar.Stats.Percentile.{
  DeltaAnalysis, compare_double_deltas, exact_percentiles_get,
}

-- The collected values in order.
abbrev pub in_order : DeltaAnalysis → List ℕ → List ℕ
in_order a vals = qsort compare_double_deltas (take a.packet_count vals)

-- What `exact_percentiles_get` answers for an analysis of `vals`.
pub record Answers (a : DeltaAnalysis) (vals : List ℕ) : Type 0 where
  pub sorted : IsSorted (in_order a vals)
  pub elements : (x : ℕ) → count x (in_order a vals) ≡ count x (take a.packet_count vals)
  pub least_le : 100 * get_or (in_order a vals) 0 0 ≤ (exact_percentiles_get a 25).0
  pub p25_le : (exact_percentiles_get a 25).0 ≤ (exact_percentiles_get a 50).0
  pub p50_le : (exact_percentiles_get a 50).0 ≤ (exact_percentiles_get a 75).0
  pub p75_le : (exact_percentiles_get a 75).0 ≤ (exact_percentiles_get a 90).0
  pub p90_le : (exact_percentiles_get a 90).0 ≤ (exact_percentiles_get a 95).0
  pub le_greatest :
      (exact_percentiles_get a 95).0 ≤ 100 * get_or (in_order a vals) (a.packet_count - 1) 0

module _ (a : DeltaAnalysis) (vals : List ℕ) (here : a.delta_values ≡ some vals)
    (pos : 0 < a.packet_count) (fresh : a.percentiles_calculated ≡ 0) where
  abbrev all_in_order : List ℕ
  all_in_order = in_order a vals ++ drop a.packet_count vals
