-- ===== src/Stats/Analysis.antt =====
-- The analysis of the statistics buffer, from src/timestamp_common.c: the result structure, its
-- configuration for a mode, the allocation of histograms, and the counting of deltas.
--
-- Pointers to the result, the configuration, the analysis and the entry are those of objects that
-- exist, so the code's NULL tests for them have no counterpart here.
pub mod Setup
pub mod Counting
pub mod Fold
use Prim.Native.Nat.{bit_and}
use trading_latency_benchmar.Prelude.{
  ℕ, zero, suc, ◌+◌, ◌-◌, ◌*◌, ◌/◌, ◌%◌, ◌^◌, Bool, true, false, ◌||◌, not, Option, none, some,
  List, [], ◌∷◌, ◌++◌, set, get_or, take, replicate, length, ◌==◌, ltb, leb, if◌then◌else◌,
}
use trading_latency_benchmar.Ring.Index.{index_distance}
use trading_latency_benchmar.Stats.Entry.{StatsEntry, StatsConfig, StatsMode, zero_entry}
use trading_latency_benchmar.Stats.Collector.{
  StatsCollector, Status, success, failure, get_buffer_count,
}
use trading_latency_benchmar.Stats.Delta.{
  DeltaDefinition, all_deltas, client_oneway_deltas, client_roundtrip_deltas, server_oneway_deltas,
  server_roundtrip_deltas,
}
use trading_latency_benchmar.Stats.Percentile.{
  DeltaAnalysis, zero_analysis, exact_percentiles_init, exact_percentiles_add_value,
  exact_percentiles_cleanup,
}

-- `stats_analysis_result_t`
pub record AnalysisResult : Type 0 where
  pub deltas : List DeltaAnalysis
  pub active_deltas : List ℕ
  pub delta_count : ℕ
  pub mode : StatsMode
  pub config : StatsConfig

-- Whether the allocation of the values and of the histogram of a delta succeeds.
pub record Memory : Type 0 where
  pub values : ℕ → Bool
  pub histograms : ℕ → Bool

abbrev pub analysis_at : AnalysisResult → ℕ → DeltaAnalysis
analysis_at result idx = get_or result.deltas idx zero_analysis

abbrev pub set_analysis : AnalysisResult → ℕ → DeltaAnalysis → AnalysisResult
set_analysis result idx analysis = record result { deltas = set result.deltas idx analysis }

-- The indices that `for (i = 0; i < result->delta_count; i++)` takes from `active_deltas`.
abbrev pub active : AnalysisResult → List ℕ
active result = take result.delta_count result.active_deltas

-- A loop over the active deltas that changes the analysis of each.
unfoldable pub for_active :
    (ℕ → DeltaAnalysis → DeltaAnalysis) → List ℕ → AnalysisResult → AnalysisResult
for_active body [] result = result
for_active body (idx ∷ rest) result =
    for_active body rest (set_analysis result idx (body idx (analysis_at result idx)))

-- The switch of `configure_analysis_for_mode`.
abbrev pub mode_deltas : StatsMode → List ℕ
mode_deltas StatsMode.client_oneway = client_oneway_deltas
mode_deltas StatsMode.client_roundtrip = client_roundtrip_deltas
mode_deltas StatsMode.server_oneway = server_oneway_deltas
mode_deltas StatsMode.server_roundtrip = server_roundtrip_deltas
mode_deltas (StatsMode.other v) = []

-- Its last loop; a failed initialisation is only logged.
unfoldable pub configure_analysis : Memory → StatsConfig → ℕ → DeltaAnalysis → DeltaAnalysis
configure_analysis memory config idx analysis =
    (exact_percentiles_init (memory.values idx) config.buffer_size
      (record analysis { packet_count = 0; histogram = none; outlier_count = 0; used_bins = 0 })).1

unfoldable pub configure_analysis_for_mode : Memory → StatsMode → StatsConfig → AnalysisResult
unfolding configure_analysis for_active
configure_analysis_for_mode memory mode config =
    let chosen = mode_deltas mode in
    for_active (configure_analysis memory config) chosen (record {
      deltas = replicate 12 zero_analysis;
      active_deltas = chosen ++ replicate (12 - length chosen) 0;
      delta_count = length chosen;
      mode = mode;
      config = config;
    })

unfoldable pub allocate_analysis_structures_for_delta :
    Memory → ℕ → ℕ → ℕ → DeltaAnalysis → Status × DeltaAnalysis
allocate_analysis_structures_for_delta memory idx max_bins buffer_capacity analysis =
    let with_values = (exact_percentiles_init (memory.values idx) buffer_capacity analysis).1 in
    if max_bins == 0
    then (failure, analysis)
    else if not (memory.histograms idx)
    then (failure, record with_values { histogram = none })
    else (
      success,
      record with_values {
        packet_count = 0;
        histogram = some (replicate max_bins 0);
        outlier_count = 0;
        used_bins = 0;
      },
    )

-- The loop of `allocate_analysis_histograms`: `finished` are the deltas before this one, of which
-- a failure frees the histograms.
unfoldable pub allocate_from : Memory → List ℕ → List ℕ → AnalysisResult → Status × AnalysisResult
allocate_from memory finished [] result = (success, result)
allocate_from memory finished (idx ∷ rest) result =
    let (status, analysis) =
      allocate_analysis_structures_for_delta memory idx result.config.max_bins
        result.config.buffer_size (analysis_at result idx) in
    let result' = set_analysis result idx analysis in
    elim status [
      | failure ↦ (failure, for_active (λ _ a. record a { histogram = none }) finished result')
      | success ↦ allocate_from memory (finished ++ idx ∷ []) rest result'
    ]

unfoldable pub allocate_analysis_histograms : Memory → AnalysisResult → Status × AnalysisResult
unfolding allocate_from
allocate_analysis_histograms memory result = allocate_from memory [] (active result) result

-- Is there a delta index of 12 or more?
unfoldable pub has_invalid_index : List ℕ → Bool
has_invalid_index [] = false
has_invalid_index (idx ∷ rest) = leb 12 idx || has_invalid_index rest

unfoldable pub validate_analysis_result : AnalysisResult → Status
unfolding has_invalid_index
validate_analysis_result result =
    if result.delta_count == 0
    then failure
    else if ltb 10 result.delta_count
    then failure
    else if result.config.max_bins == 0
    then failure
    else if result.config.bin_width_us == 0
    then failure
    else if has_invalid_index (active result)
    then failure
    else success

unfoldable pub cleanup_analysis_result : AnalysisResult → AnalysisResult
unfolding for_active
cleanup_analysis_result result =
    let freed =
      for_active
        (λ _ a.
          exact_percentiles_cleanup
            (record a { histogram = none; packet_count = 0; outlier_count = 0; used_bins = 0 }))
        (active result) result in
    record freed { delta_count = 0; active_deltas = replicate 12 0 }

unfoldable pub initialize_analysis_result :
    Memory → StatsMode → StatsConfig → Status × AnalysisResult
initialize_analysis_result memory mode config =
    let configured = configure_analysis_for_mode memory mode config in
    elim (validate_analysis_result configured) [
      | failure ↦ (failure, configured)
      | success ↦
          let (status, result) = allocate_analysis_histograms memory configured in
          elim status [
            | failure ↦ (failure, cleanup_analysis_result result)
            | success ↦ (success, result)
          ]
    ]

unfoldable pub reset_analysis_counters : AnalysisResult → AnalysisResult
unfolding for_active
reset_analysis_counters result =
    for_active
      (λ _ a. record a {
        packet_count = 0;
        outlier_count = 0;
        used_bins = 0;
        histogram = elim (a.histogram) [
          | none ↦ none
          | some bins ↦ some (replicate result.config.max_bins 0)
        ];
      })
      (active result) result

-- The place of `(int64_t)ts` among the int64_t numbers, from the least on.
abbrev pub signed_place : ℕ → ℕ
signed_place ts = (ts + 2 ^ 63) % 2 ^ 64

abbrev pub count_outlier : DeltaAnalysis → DeltaAnalysis
count_outlier a = record a { outlier_count = (a.outlier_count + 1) % 2 ^ 32 }

-- histogram[bin]++ and used_bins
unfoldable pub count_bin : ℕ → DeltaAnalysis → DeltaAnalysis
count_bin bin a = elim (a.histogram) [
  | none ↦ a
  | some bins ↦ record a {
    histogram = some (set bins bin ((get_or bins bin 0 + 1) % 2 ^ 32));
    used_bins = if leb a.used_bins bin then bin + 1 else a.used_bins;
  }
]

-- The part of `process_entry_for_delta` behind the checks of the timestamps, for a delta in
-- nanoseconds. The code's double is the delta divided by 1000: it is below 0.001 for 0 alone, above
-- 1000000.0 for more than 10^9, and its quotient by the bin width has the whole part of
-- `delta / (1000 * width)`, since a double has 53 bits and these numbers at most 30.
unfoldable pub count_delta : StatsConfig → ℕ → DeltaAnalysis → DeltaAnalysis
unfolding count_bin
count_delta config delta analysis =
    let added = exact_percentiles_add_value analysis delta in
    let bin = delta / (1000 * config.bin_width_us) in
    if delta == 0
    then analysis
    else if ltb (10 ^ 9) delta
    then count_outlier analysis
    else if ltb bin config.max_bins
    then count_bin bin added
    else count_outlier added

-- The difference of the int64_t values is exact here; in C it must not leave the range of int64_t,
-- as with timestamps below 2^63.
unfoldable pub process_entry_for_delta :
    StatsEntry → ℕ → StatsConfig → DeltaAnalysis → DeltaAnalysis
process_entry_for_delta entry delta_idx config analysis =
    let def = get_or all_deltas delta_idx (record {
      abbreviation = "";
      description = "";
      timestamp_a_index = 0;
      timestamp_b_index = 0;
      mode_mask = 0;
    }) in
    let ts_a = get_or entry.timestamp_ns def.timestamp_a_index 0 in
    let ts_b = get_or entry.timestamp_ns def.timestamp_b_index 0 in
    if leb 12 delta_idx
    then analysis
    else if ts_a == 0 || ts_b == 0
    then analysis
    else if ltb (signed_place ts_b) (signed_place ts_a)
    then analysis
    else count_delta config (signed_place ts_b - signed_place ts_a) analysis

-- The inner loop of `process_buffer_for_analysis`.
abbrev pub process_entry : StatsEntry → AnalysisResult → AnalysisResult
process_entry entry result =
    for_active (λ idx a. process_entry_for_delta entry idx result.config a) (active result) result

-- Its outer loop, over `rounds` places from `(tail + i) & size_mask` on.
unfoldable pub process_from : ℕ → ℕ → List StatsEntry → ℕ → ℕ → AnalysisResult → AnalysisResult
process_from mask tail buf i zero result = result
process_from mask tail buf i (suc rounds) result =
    process_from mask tail buf (i + 1) rounds
      (process_entry (get_or buf (bit_and ((tail + i) % 2 ^ 32) mask) zero_entry) result)

unfoldable pub process_buffer_for_analysis :
    Memory → StatsCollector → AnalysisResult → AnalysisResult
unfolding process_from
process_buffer_for_analysis memory stats result = elim (stats.buffer) [
  | none ↦ result
  | some buf ↦
      let entry_count = get_buffer_count (some stats) in
      let (status, ready) = allocate_analysis_histograms memory result in
      let counted = process_from stats.size_mask stats.tail buf 0 entry_count ready in
      if entry_count == 0 then result else elim status [ failure ↦ ready | success ↦ counted ]
]
