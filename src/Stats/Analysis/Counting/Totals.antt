-- ===== src/Stats/Analysis/Counting/Totals.antt =====
-- The counters of an analysis of src/timestamp_common.c: the values, the histogram and the outliers.
use trading_latency_benchmar.Prelude.{
  ℕ, zero, suc, ◌+◌, ◌-◌, ◌%◌, ◌^◌, ◌≤◌, ◌<◌, ◌≡◌, ◌≢◌, refl, ◌∙◌, ap, arith, none, some, List, [],
  ◌∷◌, length, set, get_or, length-set, get_or-set_ne, ltb, leb, ◌==◌, if◌then◌else◌, ◌&&◌,
}
use trading_latency_benchmar.Stats.Entry.{StatsConfig}
use trading_latency_benchmar.Stats.Percentile.{DeltaAnalysis, exact_percentiles_add_value}
use trading_latency_benchmar.Stats.Analysis.{count_bin, count_outlier}

abbrev pub sum : List ℕ → ℕ
sum [] = 0
sum (x ∷ xs) = x + sum xs

sum-set : (xs : List ℕ) (i v : ℕ) → i < length xs → sum (set xs i v) + get_or xs i 0 ≡ sum xs + v
sum-set [] i v h = absurd (omega arith)
sum-set (x ∷ xs) zero v h = omega arith
sum-set (x ∷ xs) (suc i) v h = omega (arith, sum-set xs i v (omega arith))

get_or-le-sum : (xs : List ℕ) (i : ℕ) → get_or xs i 0 ≤ sum xs
get_or-le-sum [] i = omega arith
get_or-le-sum (x ∷ xs) zero = omega arith
get_or-le-sum (x ∷ xs) (suc i) = omega (arith, get_or-le-sum xs i)

-- An analysis whose arrays are allocated as the configuration says, with the counts in range.
pub record IsCounting (config : StatsConfig) (a : DeltaAnalysis) : Type 0 where
  pub bins : List ℕ
  pub histogram_is : a.histogram ≡ some bins
  pub bins_sized : length bins ≡ config.max_bins
  pub used_in : a.used_bins ≤ config.max_bins
  pub unused_empty : (i : ℕ) → a.used_bins ≤ i → get_or bins i 0 ≡ 0
  pub vals : List ℕ
  pub values_are : a.delta_values ≡ some vals
  pub vals_sized : length vals ≡ a.delta_capacity
  pub count_in : a.packet_count ≤ a.delta_capacity
  pub capacity_in : a.delta_capacity < 2 ^ 32

-- All that the histogram and the outliers count.
abbrev pub total_counted : DeltaAnalysis → ℕ
total_counted a = elim (a.histogram) [
  | none ↦ a.outlier_count
  | some bins ↦ sum bins + a.outlier_count
]

-- Is there room for another value?
abbrev pub room_left : DeltaAnalysis → ℕ
room_left a = a.delta_capacity - a.packet_count

-- A delta that the percentiles take: more than zero, at most one second, and there is room.
abbrev pub taken : ℕ → DeltaAnalysis → ℕ
taken delta a = if ltb 0 delta && leb delta (10 ^ 9) && ltb 0 (room_left a) then 1 else 0

-- How often a delta is counted by the histogram and the outliers: not at all if it is zero, once if
-- the percentiles take it or it exceeds one second, and twice if there was no room for its value.
abbrev pub counted : ℕ → DeltaAnalysis → ℕ
counted delta a =
    if delta == 0 then 0 else if ltb (10 ^ 9) delta then 1 else if ltb 0 (room_left a) then 1 else 2

-- What `count_delta` makes of an analysis.
pub record Counted (config : StatsConfig) (delta : ℕ) (a b : DeltaAnalysis) : Type 0 where
  pub valid : IsCounting config b
  pub same_capacity : b.delta_capacity ≡ a.delta_capacity
  pub packets : b.packet_count ≡ a.packet_count + taken delta a
  pub totals : total_counted b ≡ total_counted a + counted delta a

module _ {config : StatsConfig} {a : DeltaAnalysis} (v : IsCounting config a) (delta : ℕ) where
  -- The analysis after `exact_percentiles_add_value`.
  abbrev with_value : DeltaAnalysis
  with_value = record a {
    packet_count = a.packet_count + 1;
    delta_values = some (set v.vals a.packet_count delta);
    percentiles_calculated = 0;
  }

  pub add_value-room :
      a.packet_count < a.delta_capacity → exact_percentiles_add_value a delta ≡ with_value
  unfolding exact_percentiles_add_value
  add_value-room room =
      let small : (a.packet_count + 1) % 2 ^ 32 ≡ a.packet_count + 1 =
        omega (arith, v.capacity_in) in
      rw v.values_are (ground arith)

  pub add_value-full :
      a.packet_count ≡ a.delta_capacity → exact_percentiles_add_value a delta ≡ count_outlier a
  unfolding exact_percentiles_add_value
  add_value-full full = rw v.values_are (ground arith)

  pub with_value-IsCounting : a.packet_count < a.delta_capacity → IsCounting config with_value
  with_value-IsCounting room = record {
    bins = v.bins;
    histogram_is = v.histogram_is;
    bins_sized = v.bins_sized;
    used_in = v.used_in;
    unused_empty = v.unused_empty;
    vals = set v.vals a.packet_count delta;
    values_are = refl;
    vals_sized = length-set v.vals a.packet_count delta ∙ v.vals_sized;
    count_in = omega arith;
    capacity_in = v.capacity_in;
  }

  pub outlier-IsCounting : IsCounting config (count_outlier a)
  outlier-IsCounting = record {
    bins = v.bins;
    histogram_is = v.histogram_is;
    bins_sized = v.bins_sized;
    used_in = v.used_in;
    unused_empty = v.unused_empty;
    vals = v.vals;
    values_are = v.values_are;
    vals_sized = v.vals_sized;
    count_in = v.count_in;
    capacity_in = v.capacity_in;
  }

total_counted-some :
    (a : DeltaAnalysis) (bins : List ℕ)
    → a.histogram ≡ some bins
    → total_counted a ≡ sum bins + a.outlier_count
total_counted-some a bins e = ground arith

pub outlier-total :
    (a : DeltaAnalysis)
    → total_counted a + 1 < 2 ^ 32
    → total_counted (count_outlier a) ≡ total_counted a + 1
outlier-total a small = ground arith

module _ {config : StatsConfig} {a : DeltaAnalysis} (v : IsCounting config a) (bin : ℕ) where
  -- The analysis after one more delta in a bin.
  abbrev with_bin : DeltaAnalysis
  with_bin = record a {
    histogram = some (set v.bins bin (get_or v.bins bin 0 + 1));
    used_bins = if leb a.used_bins bin then bin + 1 else a.used_bins;
  }

  sum_bins-le : sum v.bins ≤ total_counted a
  sum_bins-le = omega (arith, total_counted-some a v.bins v.histogram_is)

  pub count_bin-eq : total_counted a + 1 < 2 ^ 32 → count_bin bin a ≡ with_bin
  unfolding count_bin
  count_bin-eq small =
      let fits : (get_or v.bins bin 0 + 1) % 2 ^ 32 ≡ get_or v.bins bin 0 + 1 =
        omega (arith, get_or-le-sum v.bins bin, sum_bins-le) in
      rw v.histogram_is (
        ap
          (λ k. record a {
            histogram = some (set v.bins bin k);
            used_bins = if leb a.used_bins bin then bin + 1 else a.used_bins;
          })
          fits)

  pub with_bin-IsCounting : bin < config.max_bins → IsCounting config with_bin
  with_bin-IsCounting inside = record {
    bins = set v.bins bin (get_or v.bins bin 0 + 1);
    histogram_is = refl;
    bins_sized = length-set v.bins bin (get_or v.bins bin 0 + 1) ∙ v.bins_sized;
    used_in = ground (arith, v.used_in);
    unused_empty = λ i h.
        let (old, new) = used_grows i h in
        get_or-set_ne v.bins bin i (get_or v.bins bin 0 + 1) 0 new ∙ v.unused_empty i old;
    vals = v.vals;
    values_are = v.values_are;
    vals_sized = v.vals_sized;
    count_in = v.count_in;
    capacity_in = v.capacity_in;
  }
    where
      used_grows : (i : ℕ) → with_bin.used_bins ≤ i → (a.used_bins ≤ i) × (bin ≢ i)
      used_grows i h = (ground arith, ground arith)

  pub with_bin-total : bin < config.max_bins → total_counted with_bin ≡ total_counted a + 1
  with_bin-total inside = omega (
    arith,
    total_counted-some a v.bins v.histogram_is,
    sum-set v.bins bin (get_or v.bins bin 0 + 1) (omega (arith, v.bins_sized)),
  )
