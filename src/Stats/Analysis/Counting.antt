-- ===== src/Stats/Analysis/Counting.antt =====
-- The counts of a delta under `process_entry_for_delta` of src/timestamp_common.c: the percentile values,
-- the histogram and the outliers.
pub mod Totals
use trading_latency_benchmar.Prelude.{
  ℕ, zero, suc, ◌+◌, ◌-◌, ◌*◌, ◌/◌, ◌%◌, ◌^◌, ◌≤◌, ◌<◌, ◌≡◌, ◌≢◌, refl, ◌∙◌, ap, arith, none, some,
  List, [], ◌∷◌, length, set, get_or, length-set, get_or-set_ne, ltb, leb, lt→ltb, ◌==◌,
  if◌then◌else◌, ◌&&◌, false,
}
use native.Mathlib.Decide.{dec_lt, ℕ_discrete}
use trading_latency_benchmar.Stats.Entry.{StatsConfig}
use trading_latency_benchmar.Stats.Percentile.{DeltaAnalysis, exact_percentiles_add_value}
use trading_latency_benchmar.Stats.Analysis.{count_delta, count_bin, count_outlier}
use trading_latency_benchmar.Stats.Analysis.Counting.Totals.{
  sum, IsCounting, total_counted, counted, Counted, add_value-room, add_value-full,
  with_value-IsCounting, outlier-IsCounting, outlier-total, count_bin-eq, with_bin-IsCounting,
  with_bin-total,
}

not-ltb : (a b : ℕ) → ¬ (a < b) → ltb a b ≡ false
not-ltb a b h = ground arith

-- A value that came in is then counted by its bin or as an outlier.
placed : StatsConfig → ℕ → DeltaAnalysis → DeltaAnalysis
placed config bin a = if ltb bin config.max_bins then count_bin bin a else count_outlier a

-- Either way once.
record Placed (config : StatsConfig) (a b : DeltaAnalysis) : Type 0 where
  valid : IsCounting config b
  same_capacity : b.delta_capacity ≡ a.delta_capacity
  same_packets : b.packet_count ≡ a.packet_count
  once : total_counted b ≡ total_counted a + 1

placed-Placed :
    {config : StatsConfig} {a : DeltaAnalysis} (v : IsCounting config a) (bin : ℕ)
    → total_counted a + 1 < 2 ^ 32
    → Placed config a (placed config bin a)
unfolding placed
placed-Placed {config} {a} v bin small = elim (dec_lt bin config.max_bins) [
  | yes inside ↦
      rw (lt→ltb bin config.max_bins inside, count_bin-eq v bin small)
        (record {
          valid = with_bin-IsCounting v bin inside;
          same_capacity = refl;
          same_packets = refl;
          once = with_bin-total v bin inside;
        })
  | no outside ↦ rw (not-ltb bin config.max_bins outside) (record {
    valid = outlier-IsCounting v 0;
    same_capacity = refl;
    same_packets = refl;
    once = outlier-total a small;
  })
]

count_delta-zero : (config : StatsConfig) (a : DeltaAnalysis) → count_delta config 0 a ≡ a
unfolding count_delta
count_delta-zero config a = refl

count_delta-long :
    (config : StatsConfig) (delta : ℕ) (a : DeltaAnalysis)
    → 10 ^ 9 < delta
    → count_delta config delta a ≡ count_outlier a
unfolding count_delta
count_delta-long config delta a h = ground arith

count_delta-placed :
    (config : StatsConfig) (delta : ℕ) (a : DeltaAnalysis)
    → 0 < delta
    → delta ≤ 10 ^ 9
    → count_delta config delta a
      ≡ placed config (delta / (1000 * config.bin_width_us)) (exact_percentiles_add_value a delta)
unfolding count_delta placed
count_delta-placed config delta a low high = ground arith

Placed-Counted :
    {config : StatsConfig} {a : DeltaAnalysis} (v : IsCounting config a) (delta bin : ℕ)
    → 0 < delta
    → delta ≤ 10 ^ 9
    → total_counted a + 2 < 2 ^ 32
    → Counted config delta a (placed config bin (exact_percentiles_add_value a delta))
Placed-Counted {config} {a} v delta bin low high small =
    elim (dec_lt a.packet_count a.delta_capacity) [
      | yes room ↦
          let p = placed-Placed (with_value-IsCounting v delta room) bin (omega arith) in
          rw (add_value-room v delta room) (record {
            valid = p.valid;
            same_capacity = p.same_capacity;
            packets = ground (arith, p.same_packets);
            totals = ground (arith, p.once);
          })
      | no full ↦
          let p =
            placed-Placed (outlier-IsCounting v 0) bin
              (omega (arith, outlier-total a (omega arith))) in
          rw (add_value-full v delta (omega (arith, v.count_in))) (record {
            valid = p.valid;
            same_capacity = p.same_capacity;
            packets = ground (arith, p.same_packets, v.count_in);
            totals = ground (arith, p.once, v.count_in, outlier-total a (omega arith));
          })
    ]

-- A delta leaves an allocated analysis well-formed: the histogram keeps its length, no bin from
-- `used_bins` on is filled, and the values stay within their capacity. The number of values grows
-- exactly when the percentiles take the delta. A zero delta changes no count, one that is too long or
-- that the percentiles take is counted once by the histogram and the outliers together, and one for
-- whose value there is no room twice.
pub count_delta-Counted :
    {config : StatsConfig} {a : DeltaAnalysis} (delta : ℕ)
    → IsCounting config a
    → total_counted a + 2 < 2 ^ 32
    → Counted config delta a (count_delta config delta a)
count_delta-Counted {config} {a} delta v small = elim (ℕ_discrete delta 0) [
  | yes zero_delta ↦
      rw (zero_delta, count_delta-zero config a)
        (record { valid = v; same_capacity = refl; packets = omega arith; totals = omega arith })
  | no some_delta ↦ elim (dec_lt (10 ^ 9) delta) [
    | yes long ↦ rw (count_delta-long config delta a long) (record {
      valid = outlier-IsCounting v delta;
      same_capacity = refl;
      packets = ground arith;
      totals = ground (arith, outlier-total a (omega arith));
    })
    | no short ↦ rw (count_delta-placed config delta a (omega arith) (omega arith)) (
        Placed-Counted v delta (delta / (1000 * config.bin_width_us)) (omega arith) (omega arith)
          small)
  ]
]
