-- ===== src/Stats/Percentile.antt =====
-- The percentile part of src/timestamp_common.c: `delta_analysis_t` and the `exact_percentiles_*`
-- functions.
--
-- The code keeps a delta as a double, `delta_ns / 1000.0`. Here it is the whole number of
-- nanoseconds, and a percentile is in hundredths of a nanosecond, so that the interpolation is
-- exact; the rounding of the doubles in the interpolated value is not modelled.
pub mod Order
use trading_latency_benchmar.Prelude.{
  ℕ, ◌+◌, ◌-◌, ◌*◌, ◌/◌, ◌%◌, ◌^◌, Bool, true, false, ◌||◌, not, Option, none, some, List, [], ◌∷◌,
  ◌++◌, map, set, get_or, take, drop, replicate, ◌==◌, ltb, leb, if◌then◌else◌,
}
use trading_latency_benchmar.Sort.{Comparison, before, same, after, qsort}
use trading_latency_benchmar.Stats.Collector.{Status, success, failure}

-- `delta_analysis_t`; the two arrays may be NULL.
pub record DeltaAnalysis : Type 0 where
  pub packet_count : ℕ
  pub delta_values : Option (List ℕ)
  pub delta_capacity : ℕ
  pub exact_percentiles : List ℕ
  pub percentiles_calculated : ℕ
  pub histogram : Option (List ℕ)
  pub outlier_count : ℕ
  pub used_bins : ℕ

abbrev pub zero_analysis : DeltaAnalysis
zero_analysis = record {
  packet_count = 0;
  delta_values = none;
  delta_capacity = 0;
  exact_percentiles = replicate 5 0;
  percentiles_calculated = 0;
  histogram = none;
  outlier_count = 0;
  used_bins = 0;
}

unfoldable pub compare_double_deltas : ℕ → ℕ → Comparison
compare_double_deltas a b = if ltb a b then before else if ltb b a then after else same

-- The first argument says whether `malloc` succeeds. What malloc leaves in the array is never read
-- before it is written.
unfoldable pub exact_percentiles_init : Bool → ℕ → DeltaAnalysis → Status × DeltaAnalysis
exact_percentiles_init alloc capacity analysis =
    if capacity == 0
    then (failure, analysis)
    else if not alloc
    then (failure, record analysis { delta_values = none; delta_capacity = 0 })
    else (
      success,
      record analysis {
        packet_count = 0;
        delta_values = some (replicate capacity 0);
        delta_capacity = capacity;
        exact_percentiles = replicate 5 0;
        percentiles_calculated = 0;
      },
    )

unfoldable pub exact_percentiles_add_value : DeltaAnalysis → ℕ → DeltaAnalysis
exact_percentiles_add_value analysis delta = elim (analysis.delta_values) [
  | none ↦ analysis
  | some values ↦
      if ltb analysis.packet_count analysis.delta_capacity
      then record analysis {
        packet_count = (analysis.packet_count + 1) % 2 ^ 32;
        delta_values = some (set values analysis.packet_count delta);
        percentiles_calculated = 0;
      }
      else record analysis { outlier_count = (analysis.outlier_count + 1) % 2 ^ 32 }
]

-- One round of the percentile loop, for `percent` of `count` sorted values: `pos` is
-- `percent * (count - 1)` hundredths, with its floor and its ceiling.
unfoldable pub interpolate : List ℕ → ℕ → ℕ → ℕ
interpolate values count percent =
    let pos = percent * (count - 1) in
    let lower_idx = pos / 100 in
    let upper_idx = (pos + 99) / 100 in
    let lower_val = get_or values lower_idx 0 in
    let upper_val = get_or values upper_idx 0 in
    if lower_idx == upper_idx || leb count upper_idx
    then 100 * lower_val
    else 100 * lower_val + (pos - 100 * lower_idx) * (upper_val - lower_val)

abbrev pub percentile_positions : List ℕ
percentile_positions = 25 ∷ 50 ∷ 75 ∷ 90 ∷ 95 ∷ []

unfoldable pub exact_percentiles_calculate : DeltaAnalysis → DeltaAnalysis
exact_percentiles_calculate analysis = elim (analysis.delta_values) [
  | none ↦ analysis
  | some values ↦
      let count = analysis.packet_count in
      let sorted = qsort compare_double_deltas (take count values) ++ drop count values in
      if count == 0
      then analysis
      else if not (analysis.percentiles_calculated == 0)
      then analysis
      else record analysis {
        delta_values = some sorted;
        exact_percentiles = map (interpolate sorted count) percentile_positions;
        percentiles_calculated = 1;
      }
]

-- The switch of `exact_percentiles_get`.
unfoldable pub percentile_field : List ℕ → ℕ → ℕ
percentile_field found percentile =
    if percentile == 25
    then get_or found 0 0
    else if percentile == 50
    then get_or found 1 0
    else if percentile == 75
    then get_or found 2 0
    else if percentile == 90
    then get_or found 3 0
    else if percentile == 95
    then get_or found 4 0
    else 0

unfoldable pub exact_percentiles_get : DeltaAnalysis → ℕ → ℕ × DeltaAnalysis
unfolding percentile_field
exact_percentiles_get analysis percentile =
    let ready =
      if analysis.percentiles_calculated == 0
      then exact_percentiles_calculate analysis
      else analysis in
    (percentile_field ready.exact_percentiles percentile, ready)

unfoldable pub exact_percentiles_cleanup : DeltaAnalysis → DeltaAnalysis
exact_percentiles_cleanup analysis = record analysis {
  packet_count = 0;
  delta_values = none;
  delta_capacity = 0;
  percentiles_calculated = 0;
}
