-- ===== src/Stats/Analysis/Setup/Deltas.antt =====
-- The deltas of each mode and their memory, for `initialize_analysis_result` of src/timestamp_common.c.
use trading_latency_benchmar.Prelude.{
  ℕ, zero, suc, ◌-◌, ◌^◌, ◌≤◌, ◌<◌, ◌≡◌, ◌≢◌, refl, ◌∙◌, ap, arith, none, some, List, [], ◌∷◌, ◌++◌,
  length, get_or, take, replicate, length-replicate, true, false, All,
}
use trading_latency_benchmar.Sort.Laws.{count}
use trading_latency_benchmar.Stats.Entry.{StatsConfig, StatsMode}
use trading_latency_benchmar.Stats.Collector.{Status, success, failure}
use trading_latency_benchmar.Stats.Percentile.{DeltaAnalysis, exact_percentiles_init}
use trading_latency_benchmar.Stats.Analysis.{
  AnalysisResult, Memory, analysis_at, set_analysis, for_active, mode_deltas,
  allocate_analysis_structures_for_delta, allocate_from, has_invalid_index,
}
use trading_latency_benchmar.Stats.Analysis.Counting.Totals.{IsCounting, total_counted, sum}

-- One of the four modes of the enumeration.
abbrev pub IsKnown : StatsMode → Type 0
IsKnown (StatsMode.other v) = ⊥
IsKnown StatsMode.client_oneway = Unit
IsKnown StatsMode.client_roundtrip = Unit
IsKnown StatsMode.server_oneway = Unit
IsKnown StatsMode.server_roundtrip = Unit

-- Every allocation succeeds.
pub record IsAmple (memory : Memory) : Type 0 where
  pub values_given : (idx : ℕ) → memory.values idx ≡ true
  pub histograms_given : (idx : ℕ) → memory.histograms idx ≡ true

-- A configuration that `parse_stats_argument` lets through, and more: nothing is zero.
pub record IsUsable (config : StatsConfig) : Type 0 where
  pub some_values : config.buffer_size ≢ 0
  pub word : config.buffer_size < 2 ^ 32
  pub some_bins : config.max_bins ≢ 0
  pub some_width : config.bin_width_us ≢ 0

-- The analysis of a delta as allocated.
abbrev pub empty_analysis : StatsConfig → DeltaAnalysis
empty_analysis config = record {
  packet_count = 0;
  delta_values = some (replicate config.buffer_size 0);
  delta_capacity = config.buffer_size;
  exact_percentiles = replicate 5 0;
  percentiles_calculated = 0;
  histogram = some (replicate config.max_bins 0);
  outlier_count = 0;
  used_bins = 0;
}

sum-zeros : (n : ℕ) → sum (replicate n 0) ≡ 0
sum-zeros zero = refl
sum-zeros (suc n) = omega (arith, sum-zeros n)

get_or-zeros : (n i : ℕ) → ◌≡◌ {A = ℕ} (get_or (replicate n 0) i 0) 0
get_or-zeros zero i = refl
get_or-zeros (suc n) zero = refl
get_or-zeros (suc n) (suc i) = get_or-zeros n i

pub empty_analysis-IsCounting :
    (config : StatsConfig)
    → IsUsable config
    → IsCounting config (empty_analysis config) × (total_counted (empty_analysis config) ≡ 0)
empty_analysis-IsCounting config u = (
  record {
    bins = replicate config.max_bins 0;
    histogram_is = refl;
    bins_sized = length-replicate config.max_bins 0;
    used_in = omega arith;
    unused_empty = λ i h. get_or-zeros config.max_bins i;
    vals = replicate config.buffer_size 0;
    values_are = refl;
    vals_sized = length-replicate config.buffer_size 0;
    count_in = omega arith;
    capacity_in = u.word;
  },
  omega (arith, sum-zeros config.max_bins),
)

module _ (memory : Memory) (ample : IsAmple memory) (config : StatsConfig)
    (u : IsUsable config) where
  structures-empty :
      (idx : ℕ) (a : DeltaAnalysis)
      → allocate_analysis_structures_for_delta memory idx config.max_bins config.buffer_size a
        ≡ (success, empty_analysis config)
  unfolding allocate_analysis_structures_for_delta exact_percentiles_init
  structures-empty idx a =
      ground (arith, ample.values_given idx, ample.histograms_given idx, u.some_values, u.some_bins)

  -- With memory the loop gives each delta an empty analysis.
  pub allocate_from-ample :
      (finished ids : List ℕ) (r : AnalysisResult)
      → r.config ≡ config
      → allocate_from memory finished ids r
        ≡ (success, for_active (λ _ _. empty_analysis config) ids r)
  unfolding allocate_from for_active
  allocate_from-ample finished [] r c = refl
  allocate_from-ample finished (idx ∷ ids) r c =
      let one : allocate_analysis_structures_for_delta memory idx r.config.max_bins
            r.config.buffer_size (analysis_at r idx)
          ≡ (success, empty_analysis config) =
        ap
          (λ (k : StatsConfig).
            allocate_analysis_structures_for_delta memory idx k.max_bins k.buffer_size
              (analysis_at r idx))
          c
        ∙ structures-empty idx (analysis_at r idx) in
      ap
        (λ (p : Status × DeltaAnalysis). elim (p.0) [
          | failure ↦ (
            failure,
            for_active (λ _ a. record a { histogram = none }) finished (set_analysis r idx p.1),
          )
          | success ↦ allocate_from memory (finished ++ idx ∷ []) ids (set_analysis r idx p.1)
        ])
        one
      ∙ allocate_from-ample (finished ++ idx ∷ []) ids (set_analysis r idx (empty_analysis config))
          c

-- What the switch chooses for a known mode.
pub record Chosen (ids : List ℕ) : Type 0 where
  pub some_ids : length ids ≢ 0
  pub few : length ids ≤ 10
  pub inside : has_invalid_index ids ≡ false
  pub each : All (λ j. (j < 12) × (count j ids ≡ 1)) ids
  pub kept : take (length ids) (ids ++ replicate (12 - length ids) 0) ≡ ids

pub mode_deltas-Chosen : (mode : StatsMode) → IsKnown mode → Chosen (mode_deltas mode)
unfolding has_invalid_index
mode_deltas-Chosen (StatsMode.other v) known = absurd known
mode_deltas-Chosen StatsMode.client_oneway known = record {
  some_ids = ground arith;
  few = ground arith;
  inside = refl;
  each = ((omega arith, refl), tt);
  kept = refl;
}
mode_deltas-Chosen StatsMode.client_roundtrip known = record {
  some_ids = ground arith;
  few = ground arith;
  inside = refl;
  each = (
    (omega arith, refl),
    (
      (omega arith, refl),
      (
        (omega arith, refl),
        ((omega arith, refl), ((omega arith, refl), ((omega arith, refl), tt))),
      ),
    ),
  );
  kept = refl;
}
mode_deltas-Chosen StatsMode.server_oneway known = record {
  some_ids = ground arith;
  few = ground arith;
  inside = refl;
  each = ((omega arith, refl), ((omega arith, refl), ((omega arith, refl), tt)));
  kept = refl;
}
mode_deltas-Chosen StatsMode.server_roundtrip known = record {
  some_ids = ground arith;
  few = ground arith;
  inside = refl;
  each = (
    (omega arith, refl),
    (
      (omega arith, refl),
      (
        (omega arith, refl),
        ((omega arith, refl), ((omega arith, refl), ((omega arith, refl), tt))),
      ),
    ),
  );
  kept = refl;
}
