-- ===== src/Stats/Analysis/Setup.antt =====
-- The set-up of an analysis: `initialize_analysis_result` of src/timestamp_common.c with what it calls.
pub mod Deltas
use trading_latency_benchmar.Prelude.{
  map, ℕ, zero, suc, ◌-◌, ◌^◌, ◌≤◌, ◌<◌, ◌≡◌, ◌≢◌, refl, ◌∙◌, sym, ap, ap₂, arith, subst, none,
  some, List, [], ◌∷◌, ◌++◌, length, get_or, take, replicate, length-replicate, true, false, All,
}
use trading_latency_benchmar.Sort.Laws.{count}
use trading_latency_benchmar.Stats.Entry.{StatsConfig, StatsMode}
use trading_latency_benchmar.Stats.Collector.{Status, success, failure}
use trading_latency_benchmar.Stats.Percentile.{DeltaAnalysis, zero_analysis, exact_percentiles_init}
use trading_latency_benchmar.Stats.Analysis.{
  AnalysisResult, Memory, analysis_at, set_analysis, active, for_active, mode_deltas,
  configure_analysis, configure_analysis_for_mode, allocate_analysis_structures_for_delta,
  allocate_from, allocate_analysis_histograms, validate_analysis_result, has_invalid_index,
  initialize_analysis_result, cleanup_analysis_result,
}
use trading_latency_benchmar.Stats.Analysis.Counting.Totals.{IsCounting, total_counted, sum}
use trading_latency_benchmar.Stats.Analysis.Fold.{SameShape, for_active-SameShape, for_active-once}
use trading_latency_benchmar.Stats.Analysis.Setup.Deltas.{
  IsKnown, IsAmple, IsUsable, empty_analysis, empty_analysis-IsCounting, allocate_from-ample,
  Chosen, mode_deltas-Chosen,
}

validate-ok :
    (r : AnalysisResult) (ids : List ℕ)
    → Chosen ids
    → r.delta_count ≡ length ids
    → active r ≡ ids
    → IsUsable r.config
    → validate_analysis_result r ≡ success
unfolding validate_analysis_result
validate-ok r ids c count_is ids_are u =
    let valid_ids : has_invalid_index (active r) ≡ false =
      ap has_invalid_index ids_are ∙ c.inside in
    ground (arith, c.some_ids, c.few, u.some_bins, u.some_width, valid_ids)

-- A result set up for a mode: the deltas of the mode are active, each with an empty analysis.
pub record SetUp (mode : StatsMode) (config : StatsConfig) (r : AnalysisResult) : Type 0 where
  pub chosen : active r ≡ mode_deltas mode
  pub configured : r.config ≡ config
  pub sized : length r.deltas ≡ 12
  pub emptied :
      map (analysis_at r) (mode_deltas mode)
      ≡ replicate (length (mode_deltas mode)) (empty_analysis config)

map-constant :
    {P : ℕ → Type 0} (f : ℕ → DeltaAnalysis) (c : DeltaAnalysis) (ids : List ℕ)
    → ((j : ℕ) → P j → f j ≡ c)
    → All P ids
    → map f ids ≡ replicate (length ids) c
map-constant f c [] h every = refl
map-constant f c (j ∷ ids) h (here, further) = ap₂ ◌∷◌ (h j here) (map-constant f c ids h further)

module _ (memory : Memory) (ample : IsAmple memory) (mode : StatsMode) (known : IsKnown mode)
    (config : StatsConfig) (u : IsUsable config) where
  blank : AnalysisResult
  blank = record {
    deltas = replicate 12 zero_analysis;
    active_deltas = mode_deltas mode ++ replicate (12 - length (mode_deltas mode)) 0;
    delta_count = length (mode_deltas mode);
    mode = mode;
    config = config;
  }

  configured-SameShape : SameShape blank (configure_analysis_for_mode memory mode config)
  unfolding configure_analysis_for_mode blank
  configured-SameShape =
      for_active-SameShape (configure_analysis memory config) (mode_deltas mode) blank

  configured-active : active (configure_analysis_for_mode memory mode config) ≡ mode_deltas mode
  unfolding blank
  configured-active =
      ap₂ take configured-SameShape.same_count configured-SameShape.same_active
      ∙ (mode_deltas-Chosen mode known).kept

  configured-valid :
      validate_analysis_result (configure_analysis_for_mode memory mode config) ≡ success
  unfolding blank
  configured-valid =
      validate-ok (configure_analysis_for_mode memory mode config) (mode_deltas mode)
        (mode_deltas-Chosen mode known) configured-SameShape.same_count configured-active
        (subst IsUsable (sym configured-SameShape.same_config) u)

  -- The result after the set-up.
  emptied_result : AnalysisResult
  emptied_result =
      for_active (λ _ _. empty_analysis config) (mode_deltas mode)
        (configure_analysis_for_mode memory mode config)

  allocate-configured :
      allocate_analysis_histograms memory (configure_analysis_for_mode memory mode config)
      ≡ (success, emptied_result)
  unfolding allocate_analysis_histograms emptied_result blank
  allocate-configured =
      let r = configure_analysis_for_mode memory mode config in
      allocate_from-ample memory ample config u [] (active r) r configured-SameShape.same_config
      ∙ ap (λ ids. (success, for_active (λ _ _. empty_analysis config) ids r)) configured-active

  initialize-emptied : initialize_analysis_result memory mode config ≡ (success, emptied_result)
  unfolding initialize_analysis_result
  initialize-emptied =
      let r = configure_analysis_for_mode memory mode config in
      ap
        (λ (valid : Status). elim valid [
          | failure ↦ (failure, r)
          | success ↦
              let (status, result) = allocate_analysis_histograms memory r in
              elim status [
                | failure ↦ (failure, cleanup_analysis_result result)
                | success ↦ (success, result)
              ]
        ])
        configured-valid
      ∙ ap
          (λ (p : Status × AnalysisResult). elim (p.0) [
            | failure ↦ (failure, cleanup_analysis_result p.1)
            | success ↦ (success, p.1)
          ])
          allocate-configured

  emptied-SetUp : SetUp mode config emptied_result
  unfolding emptied_result blank
  emptied-SetUp =
      let r = configure_analysis_for_mode memory mode config in
      let shape = for_active-SameShape (λ _ _. empty_analysis config) (mode_deltas mode) r in
      record {
        chosen = ap₂ take shape.same_count shape.same_active ∙ configured-active;
        configured = shape.same_config ∙ configured-SameShape.same_config;
        sized = shape.same_length ∙ configured-SameShape.same_length;
        emptied =
            map-constant (analysis_at emptied_result) (empty_analysis config) (mode_deltas mode)
              (λ j active_once.
                for_active-once (λ _ _. empty_analysis config) (mode_deltas mode) r j
                  (omega (
                    arith,
                    active_once.0,
                    configured-SameShape.same_length,
                    length-replicate 12 zero_analysis,
                  ))
                  active_once.1)
              (mode_deltas-Chosen mode known).each;
      }

-- For each of the four modes, if every allocation succeeds and no number of the configuration is zero,
-- `initialize_analysis_result` succeeds, with exactly the deltas of the mode active, each without
-- values, with room for `buffer_size` of them, and with `max_bins` empty bins.
pub initialize_analysis_result-SetUp :
    (memory : Memory) (mode : StatsMode) (config : StatsConfig)
    → IsAmple memory
    → IsKnown mode
    → IsUsable config
    → ((initialize_analysis_result memory mode config).0 ≡ success)
      × SetUp mode config (initialize_analysis_result memory mode config).1
initialize_analysis_result-SetUp memory mode config ample known u =
    let done = initialize-emptied memory ample mode known config u in
    (
      ap (λ p. p.0) done,
      subst (λ p. SetUp mode config p.1) (sym done)
          (emptied-SetUp memory ample mode known config u),
    )
