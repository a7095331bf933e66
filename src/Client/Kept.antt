-- ===== src/Client/Kept.antt =====
-- How long the correlation arrays of src/timestamp_client.c keep the times of a packet.
use trading_latency_benchmar.Prelude.{
  ℕ, ◌+◌, ◌^◌, ◌<◌, ◌≡◌, ◌≢◌, refl, ◌∙◌, ap, ap₂, arith, some, List, [], ◌∷◌, length, length-set,
  set, get_or, get_or-set_self, get_or-set_ne, length-replicate, replicate,
}
use trading_latency_benchmar.Server.Correlation.{Timespec, zero_ts, get_circular_index}
use trading_latency_benchmar.Server.Correlation.Kept.{index-ne, index-lt}
use trading_latency_benchmar.Client.Arrays.{
  TxCorrelation, zeroed_arrays, store_tx_timestamps, Clock, tsc_to_timespec,
}
use trading_latency_benchmar.Client.Sending.{Sample, advance, store_all_times}
use trading_latency_benchmar.Client.{look_up_tx}

-- Both arrays are there and have MAX_SEQUENCE_NUMBERS places.
pub record IsSized (c : TxCorrelation) : Type 0 where
  pub array : List Timespec
  pub tsc_array : List ℕ
  pub is_there : c ≡ record { app_tx_timestamps = some array; app_tx_tsc_values = some tsc_array }
  pub sized : length array ≡ 50000
  pub tsc_sized : length tsc_array ≡ 50000

pub zeroed_arrays-IsSized : IsSized zeroed_arrays
zeroed_arrays-IsSized = record {
  array = replicate 50000 zero_ts;
  tsc_array = replicate 50000 0;
  is_there = refl;
  sized = length-replicate 50000 zero_ts;
  tsc_sized = length-replicate {A = ℕ} 50000 0;
}

-- What the RX thread finds for a number.
pub record Holds (n : ℕ) (x : Sample) (c : TxCorrelation) : Type 0 where
  pub sized : IsSized c
  pub time_held : get_or sized.array (get_circular_index n) zero_ts ≡ x.app_tx_ts
  pub tsc_held : get_or sized.tsc_array (get_circular_index n) 0 ≡ x.tx_tsc

store-IsSized :
    (n : ℕ) (ts : Timespec) (tsc : ℕ) {c : TxCorrelation}
    → IsSized c
    → IsSized (store_tx_timestamps n ts tsc c)
unfolding store_tx_timestamps
store-IsSized n ts tsc v = record {
  array = set v.array (get_circular_index n) ts;
  tsc_array = set v.tsc_array (get_circular_index n) tsc;
  is_there = ap (store_tx_timestamps n ts tsc) v.is_there;
  sized = length-set v.array (get_circular_index n) ts ∙ v.sized;
  tsc_sized = length-set v.tsc_array (get_circular_index n) tsc ∙ v.tsc_sized;
}

store-Holds :
    (n : ℕ) (x : Sample) {c : TxCorrelation}
    → IsSized c
    → Holds n x (store_tx_timestamps n x.app_tx_ts x.tx_tsc c)
unfolding store-IsSized
store-Holds n x v =
    let inside = index-lt n in
    record {
      sized = store-IsSized n x.app_tx_ts x.tx_tsc v;
      time_held =
          get_or-set_self v.array (get_circular_index n) x.app_tx_ts zero_ts
            (omega (arith, v.sized));
      tsc_held =
          get_or-set_self v.tsc_array (get_circular_index n) x.tx_tsc 0
            (omega (arith, v.tsc_sized));
    }

store-Holds_other :
    (n m : ℕ) (x y : Sample) {c : TxCorrelation}
    → get_circular_index m ≢ get_circular_index n
    → Holds n x c
    → Holds n x (store_tx_timestamps m y.app_tx_ts y.tx_tsc c)
unfolding store-IsSized
store-Holds_other n m x y other h =
    let i = get_circular_index m in
    let j = get_circular_index n in
    record {
      sized = store-IsSized m y.app_tx_ts y.tx_tsc h.sized;
      time_held = get_or-set_ne h.sized.array i j y.app_tx_ts zero_ts other ∙ h.time_held;
      tsc_held = get_or-set_ne h.sized.tsc_array i j y.tx_tsc 0 other ∙ h.tsc_held;
    }

-- Later packets, fewer than 50000 of them after the one with number `n`, leave its times.
later-Holds :
    (n m : ℕ) (x : Sample) (ys : List Sample) {c : TxCorrelation}
    → n < m
    → m + length ys < n + 50001
    → m + length ys < 2 ^ 32
    → Holds n x c
    → Holds n x (store_all_times m ys c)
unfolding store_all_times
later-Holds n m x [] after near fits h = h
later-Holds n m x (y ∷ ys) after near fits h =
    let other = index-ne m n after (omega arith) in
    let next : advance m 1 ≡ m + 1 = omega arith in
    later-Holds n (advance m 1) x ys (omega (arith, next)) (omega (arith, next))
      (omega (arith, next)) (store-Holds_other n m x y other h)

-- Once a packet and fewer than 50000 further ones are stored, without going round, the RX thread finds
-- the packet's time and its counter, converted.
pub store_all_times-look_up_tx :
    (n : ℕ) (x : Sample) (ys : List Sample) (clock : Clock) {c : TxCorrelation}
    → IsSized c
    → length ys < 50000
    → n + 1 + length ys < 2 ^ 32
    → look_up_tx clock n (store_all_times n (x ∷ ys) c)
      ≡ (x.app_tx_ts, tsc_to_timespec clock x.tx_tsc)
unfolding store_all_times look_up_tx
store_all_times-look_up_tx n x ys clock v few fits =
    let next : advance n 1 ≡ n + 1 = omega arith in
    let h =
      later-Holds n (advance n 1) x ys (omega (arith, next)) (omega (arith, next))
        (omega (arith, next)) (store-Holds n x v) in
    ap (look_up_tx clock n) h.sized.is_there
    ∙ ap₂ (λ ts tsc. (ts, tsc_to_timespec clock tsc)) h.time_held h.tsc_held

pub store_all-IsSized :
    (n : ℕ) (xs : List Sample) {c : TxCorrelation} → IsSized c → IsSized (store_all_times n xs c)
unfolding store_all_times
store_all-IsSized n [] v = v
store_all-IsSized n (x ∷ xs) v =
    store_all-IsSized (advance n 1) xs (store-IsSized n x.app_tx_ts x.tx_tsc v)
