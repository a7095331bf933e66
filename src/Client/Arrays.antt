-- ===== src/Client/Arrays.antt =====
-- The correlation arrays of src/timestamp_client.c, and `tsc_to_timespec` of src/timestamp_common.c.
use trading_latency_benchmar.Prelude.{
  ℕ, ◌+◌, ◌-◌, ◌*◌, ◌/◌, ◌%◌, Bool, ◌||◌, not, Option, none, some, List, set, replicate, ◌==◌,
  if◌then◌else◌,
}
use trading_latency_benchmar.Stats.Collector.{Status}
use trading_latency_benchmar.Server.Correlation.{Timespec, zero_ts, get_circular_index}

-- `app_tx_timestamps` and `app_tx_tsc_values`.
pub record TxCorrelation : Type 0 where
  pub app_tx_timestamps : Option (List Timespec)
  pub app_tx_tsc_values : Option (List ℕ)

abbrev pub no_arrays : TxCorrelation
no_arrays = record { app_tx_timestamps = none; app_tx_tsc_values = none }

-- MAX_SEQUENCE_NUMBERS is 50000.
abbrev pub zeroed_arrays : TxCorrelation
zeroed_arrays = record {
  app_tx_timestamps = some (replicate 50000 zero_ts);
  app_tx_tsc_values = some (replicate 50000 0);
}

-- Whether the aligned and the plain allocation succeed, of the first array and of the second.
unfoldable pub init_tx_correlation : Bool → Bool → Bool → Bool → Status × TxCorrelation
init_tx_correlation aligned plain tsc_aligned tsc_plain =
    if not (aligned || plain)
    then (Status.failure, no_arrays)
    else if not (tsc_aligned || tsc_plain)
    then (Status.failure, no_arrays)
    else (Status.success, zeroed_arrays)

unfoldable pub store_tx_timestamp : ℕ → Timespec → TxCorrelation → TxCorrelation
unfolding get_circular_index
store_tx_timestamp seq_num app_tx_ts c = record c {
  app_tx_timestamps = elim (c.app_tx_timestamps) [
    | none ↦ none
    | some array ↦ some (set array (get_circular_index seq_num) app_tx_ts)
  ];
}

-- Nothing is done unless both arrays are there.
unfoldable pub store_tx_timestamps : ℕ → Timespec → ℕ → TxCorrelation → TxCorrelation
unfolding get_circular_index
store_tx_timestamps seq_num app_tx_ts tsc_value c = elim (c.app_tx_timestamps) [
  | none ↦ c
  | some array ↦ elim (c.app_tx_tsc_values) [
    | none ↦ c
    | some tsc_array ↦ record {
      app_tx_timestamps = some (set array (get_circular_index seq_num) app_tx_ts);
      app_tx_tsc_values = some (set tsc_array (get_circular_index seq_num) tsc_value);
    }
  ]
]

-- What `tsc_to_timespec` finds when it is called: the time, and for a value of the counter the time from
-- now to then in nanoseconds, as the division of floating point numbers gives it: its sign, true for
-- earlier, and its size.
pub record Clock : Type 0 where
  pub ref_time : Timespec
  pub time_diff_ns : ℕ → Bool × ℕ

unfoldable pub tsc_to_timespec : Clock → ℕ → Timespec
tsc_to_timespec clock tsc_cycles =
    let now_ns = clock.ref_time.tv_sec * 1000000000 + clock.ref_time.tv_nsec in
    let (earlier, diff) = clock.time_diff_ns tsc_cycles in
    let total_ns = if earlier then now_ns - diff else now_ns + diff in
    if tsc_cycles == 0
    then zero_ts
    else record { tv_sec = total_ns / 1000000000; tv_nsec = total_ns % 1000000000 }
