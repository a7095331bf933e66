-- ===== src/Client.antt =====
-- The client, src/timestamp_client.c: the correlation arrays, the packets, what the loops of
-- `run_client_oneway` and `run_client_roundtrip` do with a batch, and what `rx_thread_func` does with an
-- answer.
pub mod Sending
pub mod Arrays
pub mod Kept
pub mod Log
pub mod Stored
pub mod Answered
mod Tests
use trading_latency_benchmar.Prelude.{
  ℕ, zero, suc, ◌+◌, ◌-◌, ◌*◌, ◌/◌, ◌%◌, ◌^◌, Bool, true, false, ◌&&◌, ◌||◌, not, Option, none,
  some, List, [], ◌∷◌, ◌++◌, set, get_or, length, take, replicate, leb, ◌==◌, if◌then◌else◌, Bytes,
  read_u32,
}
use trading_latency_benchmar.Stats.Entry.{StatsConfig, StatsMode, TimestampMode}
use trading_latency_benchmar.Stats.Collector.{
  StatsCollector, Status, create_minimal_stats_entry, update_stats_buffer_with_app_tx_timestamp,
  update_stats_buffer_with_rx_timestamps,
}
use trading_latency_benchmar.Csv.{
  CsvRingBuffer, CsvEntry, csv_enqueue_fast, create_csv_client_oneway_main,
  create_csv_client_roundtrip_rx,
}
use trading_latency_benchmar.Server.Correlation.{Timespec, zero_ts, to_ns, get_circular_index}
use trading_latency_benchmar.ErrorQueue.{Control, extract_rx_timestamps}
use trading_latency_benchmar.Client.Arrays.{
  TxCorrelation, zeroed_arrays, store_tx_timestamp, store_tx_timestamps, Clock, tsc_to_timespec,
}
use trading_latency_benchmar.Client.Sending.{Sample, ClientState, advance, log_if, store_all_times}

-- An answer as `recvmsg` gives it, of at most four bytes, with the time and the counter at its receipt,
-- and the clocks of the two conversions.
pub record Answer : Type 0 where
  pub packet : Bytes
  pub control : List Control
  pub app_rx_ts : Timespec
  pub rx_tsc : ℕ
  pub tx_clock : Clock
  pub rx_clock : Clock

-- `RoundTripData`, as far as the client fills it.
pub record RoundTripData : Type 0 where
  pub seq_num : ℕ
  pub clt_app_tx_ts : Timespec
  pub clt_app_tx_tsc_ts : Timespec
  pub clt_hw_rx_ts : Timespec
  pub clt_ker_rx_ts : Timespec
  pub clt_app_rx_ts : Timespec
  pub clt_app_rx_tsc_ts : Timespec

-- What the arrays have for a number: the time and the converted counter, zero if an array is missing.
unfoldable pub look_up_tx : Clock → ℕ → TxCorrelation → Timespec × Timespec
unfolding get_circular_index tsc_to_timespec
look_up_tx clock seq_num c = elim (c.app_tx_timestamps) [
  | none ↦ (zero_ts, zero_ts)
  | some array ↦ elim (c.app_tx_tsc_values) [
    | none ↦ (zero_ts, zero_ts)
    | some tsc_array ↦
        let index = get_circular_index seq_num in
        (get_or array index zero_ts, tsc_to_timespec clock (get_or tsc_array index 0))
  ]
]

-- The RX timestamps of a message, hardware and kernel; zero if it has none.
unfoldable pub rx_times : List Control → Timespec × Timespec
unfolding extract_rx_timestamps
rx_times control = elim (extract_rx_timestamps control) [
  | none ↦ (zero_ts, zero_ts)
  | some times ↦ times
]

unfoldable pub round_trip_data : Answer → TxCorrelation → RoundTripData
unfolding look_up_tx rx_times
round_trip_data a c =
    let seq = read_u32 a.packet 0 in
    let (app_tx, tx_tsc) = look_up_tx a.tx_clock seq c in
    let (hw, ker) = rx_times a.control in
    record {
      seq_num = seq;
      clt_app_tx_ts = app_tx;
      clt_app_tx_tsc_ts = tx_tsc;
      clt_hw_rx_ts = hw;
      clt_ker_rx_ts = ker;
      clt_app_rx_ts = a.app_rx_ts;
      clt_app_rx_tsc_ts = tsc_to_timespec a.rx_clock a.rx_tsc;
    }

abbrev pub roundtrip_entry : Bytes → ℕ → RoundTripData → CsvEntry
roundtrip_entry src_ip src_port d =
    create_csv_client_roundtrip_rx d.seq_num src_ip (src_port % 2 ^ 16) (to_ns d.clt_app_tx_tsc_ts)
      (to_ns d.clt_app_tx_ts) (to_ns d.clt_hw_rx_ts) (to_ns d.clt_ker_rx_ts)
      (to_ns d.clt_app_rx_tsc_ts) (to_ns d.clt_app_rx_ts)

-- A round of the loop of `rx_thread_func` that receives an answer.
unfoldable pub receive_answer : StatsConfig → Bool → Bytes → ℕ → Answer → ClientState → ClientState
unfolding round_trip_data
receive_answer config csv_enabled src_ip src_port a s =
    let d = round_trip_data a s.correlation in
    let told =
      update_stats_buffer_with_rx_timestamps config d.seq_num (to_ns d.clt_hw_rx_ts)
        (to_ns d.clt_ker_rx_ts) (to_ns d.clt_app_rx_ts) (to_ns d.clt_app_rx_tsc_ts)
        StatsMode.client_roundtrip s.collector in
    if leb 4 (length a.packet)
    then record s {
      collector = if config.enabled == 0 then s.collector else told;
      csv_buffer = log_if csv_enabled (roundtrip_entry src_ip src_port d) s.csv_buffer;
      packets_received = (s.packets_received + 1) % 2 ^ 64;
      local_packets_received = (s.local_packets_received + 1) % 2 ^ 64;
    }
    else s

-- What `recvmsg` gives: an answer, EAGAIN or EINTR, or another error or an end, after which the loop ends,
-- with whether the thread is still meant to run.
pub data RxReceipt : Type 0 where
  answer : Answer → RxReceipt
  try_again : RxReceipt
  broken : Bool → RxReceipt

-- The loop, while the thread is meant to run.
unfoldable pub rx_thread_func :
    StatsConfig → Bool → Bytes → ℕ → List RxReceipt → ClientState → ClientState
unfolding receive_answer
rx_thread_func config csv_enabled src_ip src_port [] s = s
rx_thread_func config csv_enabled src_ip src_port (answer a ∷ receipts) s =
    rx_thread_func config csv_enabled src_ip src_port receipts
      (receive_answer config csv_enabled src_ip src_port a s)
rx_thread_func config csv_enabled src_ip src_port (try_again ∷ receipts) s =
    rx_thread_func config csv_enabled src_ip src_port receipts s
rx_thread_func config csv_enabled src_ip src_port (broken running ∷ receipts) s =
    if running then record s { hotpath_errors = (s.hotpath_errors + 1) % 2 ^ 64 } else s
