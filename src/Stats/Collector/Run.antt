-- ===== src/Stats/Collector/Run.antt =====
-- Runs of `stats_enqueue` of include/timestamp_common.h.
use trading_latency_benchmar.Prelude.{
  ◌+◌, ◌-◌, ◌%◌, ◌^◌, ◌≤◌, ◌≡◌, refl, ◌∙◌, sym, ap, ap₂, arith, Option, some, List, [], ◌∷◌, ◌++◌,
  length, map, drop, keep_last, keep_last-append, length-append, length-drop, append-nil,
  append_assoc,
}
use trading_latency_benchmar.Ring.Contents.{index_distance-le}
use trading_latency_benchmar.Stats.Entry.{StatsEntry}
use trading_latency_benchmar.Stats.Collector.{StatsCollector, Status, success, stats_enqueue}
use trading_latency_benchmar.Stats.Collector.Valid.{
  IsValid, held, excess, length-held, stats_enqueue-Enqueued,
}

-- One call for each entry, in order: what each returns, and the collector behind them.
unfoldable pub enqueue_all :
    Option StatsCollector → List StatsEntry → List Status × Option StatsCollector
enqueue_all stats [] = ([], stats)
enqueue_all stats (e ∷ es) =
    let (status, next) = stats_enqueue stats (some e) in
    let (statuses, end) = enqueue_all next es in (status ∷ statuses, end)

pub held-le : {s : StatsCollector} → IsValid s → length (held s) ≤ s.size_mask
held-le {s} v = omega (arith, length-held v, index_distance-le v.ones s.head s.tail v.tail_in)

dropped_now :
    (s : StatsCollector) (e : StatsEntry) → excess s ≡ length (held s ++ e ∷ []) - s.size_mask
dropped_now s e = omega (arith, length-append (held s) (e ∷ []))

-- What a run of calls leaves.
pub record Ran (s : StatsCollector) (es : List StatsEntry) (t : StatsCollector) : Type 0 where
  pub valid : IsValid t
  pub same_size : t.size_mask ≡ s.size_mask
  pub holds : held t ≡ keep_last s.size_mask (held s ++ es)
  pub total : t.total_entries ≡ (s.total_entries + length es) % 2 ^ 64
  pub dropped :
      t.dropped_entries ≡ (s.dropped_entries + (length (held s ++ es) - s.size_mask)) % 2 ^ 64

-- Any run of `stats_enqueue` on a valid collector succeeds in each call and leaves a valid one that holds
-- the last `size_mask` of the entries held before and those of the run, in order; the two counters have
-- grown by the number of calls and by the number of entries that are no longer held (modulo 2^64).
pub enqueue_all-Ran :
    (es : List StatsEntry) {s : StatsCollector}
    → IsValid s
    → (t : StatsCollector) × (enqueue_all (some s) es ≡ (map (λ e. success) es, some t))
      × Ran s es t
unfolding enqueue_all
enqueue_all-Ran [] {s} v = (
  s,
  refl,
  record {
    valid = v;
    same_size = refl;
    holds = sym (
        ap (keep_last s.size_mask) (append-nil (held s))
        ∙ ap (λ k. drop k (held s))
            (let e : length (held s) - s.size_mask ≡ 0 = omega (arith, held-le v) in e));
    total = omega (arith, v.total_in);
    dropped = omega (arith, v.dropped_in, held-le v, length-append (held s) []);
  },
)
enqueue_all-Ran (e ∷ es) {s} v =
    let (s', enq, one) = stats_enqueue-Enqueued v e in
    let (t, ran, rest) = enqueue_all-Ran es one.valid in
    (
      t,
      ap (λ r. (r.0 ∷ (enqueue_all r.1 es).0, (enqueue_all r.1 es).1)) enq
          ∙ ap (λ r. (success ∷ r.0, r.1)) ran,
      record {
        valid = rest.valid;
        same_size = rest.same_size ∙ one.same_size;
        holds =
            rest.holds
            ∙ (ap₂ (λ n xs. keep_last n (xs ++ es)) one.same_size
                  (one.holds ∙ ap (λ k. drop k (held s ++ e ∷ [])) (dropped_now s e))
                ∙ (keep_last-append s.size_mask (held s ++ e ∷ []) es
                    ∙ ap (keep_last s.size_mask) (append_assoc (held s) (e ∷ []) es)));
        total = omega (arith, rest.total, one.total);
        dropped = omega (
          arith,
          rest.dropped,
          one.dropped,
          one.same_size,
          ap length one.holds,
          length-drop (excess s) (held s ++ e ∷ []),
          length-append (held s) (e ∷ []),
          length-append (held s') es,
          length-append (held s) (e ∷ es),
        );
      },
    )
