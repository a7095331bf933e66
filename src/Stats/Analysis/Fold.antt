-- ===== src/Stats/Analysis/Fold.antt =====
-- The two loops of `process_buffer_for_analysis` of src/timestamp_common.c, over the entries and over the
-- active deltas.
use native.Mathlib.Nat.{mod-add-mod, mod-lt, mod-eq_of_lt}
use trading_latency_benchmar.Prelude.{
  ℕ, zero, suc, ◌+◌, ◌%◌, ◌<◌, ◌≡◌, ◌≢◌, refl, ◌∙◌, sym, ap, ap₂, arith, List, [], ◌∷◌, length,
  get_or, set, take, length-set, get_or-set_self, get_or-set_ne,
}
use native.Mathlib.Decide.{ℕ_discrete}
use trading_latency_benchmar.Ring.Index.{IsMask, mask-mod, index_distance}
use trading_latency_benchmar.Ring.Segment.{segment, segment_first}
use trading_latency_benchmar.Sort.Laws.{count}
use trading_latency_benchmar.Stats.Entry.{StatsEntry, StatsConfig, zero_entry}
use trading_latency_benchmar.Stats.Collector.{StatsCollector, success, get_buffer_count}
use trading_latency_benchmar.Stats.Collector.Valid.{IsValid, held, held-some}
use trading_latency_benchmar.Stats.Percentile.{DeltaAnalysis, zero_analysis}
use trading_latency_benchmar.Stats.Analysis.{
  AnalysisResult, Memory, analysis_at, set_analysis, active, for_active, process_entry,
  process_entry_for_delta, process_from, process_buffer_for_analysis, allocate_analysis_histograms,
}

-- What a loop over the active deltas leaves alone.
pub record SameShape (r t : AnalysisResult) : Type 0 where
  pub same_active : t.active_deltas ≡ r.active_deltas
  pub same_count : t.delta_count ≡ r.delta_count
  pub same_config : t.config ≡ r.config
  pub same_length : length t.deltas ≡ length r.deltas

module _ (body : ℕ → DeltaAnalysis → DeltaAnalysis) where
  pub for_active-SameShape :
      (ids : List ℕ) (r : AnalysisResult) → SameShape r (for_active body ids r)
  unfolding for_active
  for_active-SameShape [] r = record {
    same_active = refl;
    same_count = refl;
    same_config = refl;
    same_length = refl;
  }
  for_active-SameShape (idx ∷ ids) r =
      let changed = body idx (analysis_at r idx) in
      let rest = for_active-SameShape ids (set_analysis r idx changed) in
      record {
        same_active = rest.same_active;
        same_count = rest.same_count;
        same_config = rest.same_config;
        same_length = rest.same_length ∙ length-set r.deltas idx changed;
      }

  -- A delta that is not active keeps its analysis.
  pub for_active-none :
      (ids : List ℕ) (r : AnalysisResult) (j : ℕ)
      → count j ids ≡ 0
      → analysis_at (for_active body ids r) j ≡ analysis_at r j
  unfolding for_active
  for_active-none [] r j h = refl
  for_active-none (idx ∷ ids) r j h =
      for_active-none ids (set_analysis r idx (body idx (analysis_at r idx))) j (ground arith)
      ∙ get_or-set_ne r.deltas idx j (body idx (analysis_at r idx)) zero_analysis (ground arith)

  -- A delta that is active once has its analysis changed once.
  pub for_active-once :
      (ids : List ℕ) (r : AnalysisResult) (j : ℕ)
      → j < length r.deltas
      → count j ids ≡ 1
      → analysis_at (for_active body ids r) j ≡ body j (analysis_at r j)
  unfolding for_active
  for_active-once [] r j lt h = absurd (omega arith)
  for_active-once (idx ∷ ids) r j lt h =
      let changed = body idx (analysis_at r idx) in
      let r' = set_analysis r idx changed in
      elim (ℕ_discrete idx j) [
        | yes here ↦
            for_active-none ids r' j (ground arith)
            ∙ (ap (λ k. get_or (set r.deltas k (body k (analysis_at r k))) j zero_analysis) here
                ∙ get_or-set_self r.deltas j (body j (analysis_at r j)) zero_analysis lt)
        | no elsewhere ↦
            for_active-once ids r' j (omega (arith, length-set r.deltas idx changed)) (ground arith)
            ∙ ap (body j) (get_or-set_ne r.deltas idx j changed zero_analysis elsewhere)
      ]

-- The entries one after the other.
process_all : List StatsEntry → AnalysisResult → AnalysisResult
process_all [] r = r
process_all (e ∷ es) r = process_all es (process_entry e r)

-- One delta over the entries.
pub fold_delta : StatsConfig → ℕ → List StatsEntry → DeltaAnalysis → DeltaAnalysis
fold_delta config idx [] a = a
fold_delta config idx (e ∷ es) a = fold_delta config idx es (process_entry_for_delta e idx config a)

process_all-at :
    (es : List StatsEntry) (ids : List ℕ) (config : StatsConfig) (r : AnalysisResult) (j : ℕ)
    → active r ≡ ids
    → r.config ≡ config
    → j < length r.deltas
    → count j ids ≡ 1
    → analysis_at (process_all es r) j ≡ fold_delta config j es (analysis_at r j)
unfolding process_all fold_delta
process_all-at [] ids config r j ha hc lt once = refl
process_all-at (e ∷ es) ids config r j ha hc lt once =
    let body = λ (idx : ℕ) (a : DeltaAnalysis). process_entry_for_delta e idx r.config a in
    let shape = for_active-SameShape body (active r) r in
    process_all-at es ids config (process_entry e r) j
      (ap₂ take shape.same_count shape.same_active ∙ ha) (shape.same_config ∙ hc)
      (omega (arith, shape.same_length)) once
    ∙ ap (fold_delta config j es) (
        for_active-once body (active r) r j lt (ap (count j) ha ∙ once)
        ∙ ap (λ c. process_entry_for_delta e j c (analysis_at r j)) hc)

-- The outer loop goes through the segment from the tail on.
process_from-segment :
    {mask : ℕ} (m : IsMask mask) (tail : ℕ) (buf : List StatsEntry) (k i : ℕ) (r : AnalysisResult)
    → process_from mask tail buf i k r
      ≡ process_all (segment zero_entry (mask + 1) buf ((tail + i) % (mask + 1)) k) r
unfolding process_from process_all
process_from-segment m tail buf zero i r = refl
process_from-segment {mask} m tail buf (suc k) i r =
    let n = mask + 1 in
    let place = (tail + i) % n in
    let entry = get_or buf place zero_entry in
    let further : (tail + (i + 1)) % n ≡ (place + 1) % n =
      ap (λ x. x % n) next ∙ sym (mod-add-mod (tail + i) n 1) in
    ap (λ x. process_from mask tail buf (i + 1) k (process_entry (get_or buf x zero_entry) r))
      (mask-mod m (tail + i))
    ∙ (process_from-segment m tail buf k (i + 1) (process_entry entry r)
        ∙ (ap (λ x. process_all (segment zero_entry n buf x k) (process_entry entry r)) further
            ∙ ap (λ es. process_all es r)
                (sym (segment_first zero_entry n buf place k (mod-lt (tail + i) (omega arith))))))
  where
    next : tail + (i + 1) ≡ tail + i + 1
    next = omega arith

module _ (memory : Memory) {s : StatsCollector} (r ready : AnalysisResult) (v : IsValid s)
    (some_held : held s ≢ [])
    (allocated : allocate_analysis_histograms memory r ≡ (success, ready)) where
  entries_held : index_distance s.size_mask s.head s.tail ≢ 0
  entries_held none_held = some_held (
      held-some s v.entries v.allocated
      ∙ ap (segment zero_entry (s.size_mask + 1) v.entries s.tail) none_held)

  process_buffer-from :
      process_buffer_for_analysis memory s r
      ≡ process_from s.size_mask s.tail v.entries 0 (index_distance s.size_mask s.head s.tail) ready
  unfolding process_buffer_for_analysis get_buffer_count
  process_buffer-from = rw (v.allocated, allocated) (ground (arith, entries_held))

  process_buffer-all : process_buffer_for_analysis memory s r ≡ process_all (held s) ready
  process_buffer-all =
      let n = s.size_mask + 1 in
      let k = index_distance s.size_mask s.head s.tail in
      let start : (s.tail + 0) % n ≡ s.tail =
        mod-eq_of_lt (omega (arith, v.tail_in)) ∙ omega arith in
      process_buffer-from
      ∙ (process_from-segment v.ones s.tail v.entries k 0 ready
          ∙ ap (λ es. process_all es ready)
              (ap (λ t. segment zero_entry n v.entries t k) start
                ∙ sym (held-some s v.entries v.allocated)))

-- On a valid collector that holds entries, and if the histograms can be allocated, the analysis of
-- each active delta is the fold of `process_entry_for_delta` over the held entries, oldest first,
-- whatever the other deltas are. (Each delta is active at most once.)
pub process_buffer-fold :
    (memory : Memory) {s : StatsCollector} (r ready : AnalysisResult) (j : ℕ)
    → IsValid s
    → held s ≢ []
    → allocate_analysis_histograms memory r ≡ (success, ready)
    → j < length ready.deltas
    → count j (active ready) ≡ 1
    → analysis_at (process_buffer_for_analysis memory s r) j
      ≡ fold_delta ready.config j (held s) (analysis_at ready j)
process_buffer-fold memory {s} r ready j v some_held allocated lt once =
    ap (λ t. analysis_at t j) (process_buffer-all memory r ready v some_held allocated)
    ∙ process_all-at (held s) (active ready) ready.config ready j refl refl lt once
