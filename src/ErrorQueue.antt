-- ===== src/ErrorQueue.antt =====
-- The messages of a socket's error queue and what the programs make of them:
-- `process_tx_timestamps_in_main_thread` of src/timestamp_server.c and of src/timestamp_client.c, the loop
-- around it that empties the queue, and `extract_rx_timestamps` of include/timestamp_common.h.
pub mod Batch
pub mod Drain
pub mod Thread
mod Tests
use trading_latency_benchmar.Prelude.{
  ℕ, zero, suc, ◌+◌, ◌-◌, ◌*◌, ◌%◌, ◌^◌, Bool, true, false, ◌&&◌, not, Option, none, some, List, [],
  ◌∷◌, length, get_or, ltb, leb, ◌==◌, if◌then◌else◌, Bytes, read_u32,
}
use trading_latency_benchmar.Stats.Entry.{StatsConfig, StatsMode, stats_mode_code}
use trading_latency_benchmar.Stats.Collector.{StatsCollector, update_stats_buffer_with_tx_timestamp}
use trading_latency_benchmar.Csv.{
  CsvRingBuffer, CsvEntry, csv_enqueue_fast, create_csv_server_tx, create_csv_client_oneway_tx,
}
use trading_latency_benchmar.Server.Correlation.{
  Timespec, zero_ts, to_ns, get_circular_index, Correlation,
}

-- A control message: an error with the kernel's own number, the three timestamps of the kernel, or
-- another.
pub data Control : Type 0 where
  recverr : ℕ → Control
  timestamping : Timespec → Timespec → Timespec → Control
  other : Control

-- A message, with the bytes of `packet_data` that it fills, at most 64.
pub record Message : Type 0 where
  pub packet_data : Bytes
  pub control : List Control

-- The RX timestamps of the first message that has some: hardware and kernel.
unfoldable pub extract_rx_timestamps : List Control → Option (Timespec × Timespec)
extract_rx_timestamps [] = none
extract_rx_timestamps (recverr n ∷ control) = extract_rx_timestamps control
extract_rx_timestamps (timestamping ts0 ts1 ts2 ∷ control) = some (ts2, ts0)
extract_rx_timestamps (other ∷ control) = extract_rx_timestamps control

-- The sequence number of a message with an error: behind the headers, at the start, or the kernel's.
unfoldable pub payload_seq : Bytes → ℕ → ℕ
payload_seq packet_data kernel_seq =
    if leb 46 (length packet_data)
    then read_u32 packet_data 42
    else if leb 4 (length packet_data)
    then read_u32 packet_data 0
    else kernel_seq

-- The loop over the control messages, with `seq_num` and `kernel_tx_ts` so far.
unfoldable pub read_control : Bytes → List Control → ℕ → Timespec → ℕ × Timespec
unfolding payload_seq
read_control packet_data [] seq_num ts = (seq_num, ts)
read_control packet_data (recverr kernel_seq ∷ control) seq_num ts =
    read_control packet_data control (payload_seq packet_data kernel_seq) ts
read_control packet_data (timestamping ts0 ts1 ts2 ∷ control) seq_num ts =
    read_control packet_data control seq_num ts0
read_control packet_data (other ∷ control) seq_num ts = read_control packet_data control seq_num ts

abbrev pub sequence_number : Message → ℕ
sequence_number m = (read_control m.packet_data m.control 0 zero_ts).0

abbrev pub kernel_tx_ns : Message → ℕ
kernel_tx_ns m = to_ns (read_control m.packet_data m.control 0 zero_ts).1

-- The TX log and the statistics.
pub record TxState : Type 0 where
  pub tx_csv_buffer : Option CsvRingBuffer
  pub collector : Option StatsCollector

-- The log with an entry if it is on and there, and the number of entries.
unfoldable pub log_entry : Bool → CsvEntry → Option CsvRingBuffer → ℕ × Option CsvRingBuffer
log_entry csv_enabled entry none = (0, none)
log_entry csv_enabled entry (some buffer) =
    if csv_enabled then (1, some (csv_enqueue_fast buffer entry).1) else (0, some buffer)

-- What the server does with a message; the arrays tell the client.
unfoldable pub server_tx_message :
    StatsConfig → Bool → Option Correlation → Message → TxState → ℕ × TxState
unfolding log_entry get_circular_index
server_tx_message config csv_enabled none m s = (0, s)
server_tx_message config csv_enabled (some c) m s =
    let seq_num = sequence_number m in
    let index = get_circular_index seq_num in
    let entry =
      create_csv_server_tx seq_num (get_or c.client_ips index [])
        (get_or c.client_ports index 0 % 2 ^ 16) (kernel_tx_ns m) in
    let (processed, log) = log_entry csv_enabled entry s.tx_csv_buffer in
    (
      processed,
      record {
        tx_csv_buffer = log;
        collector =
            if config.enabled == 0
            then s.collector
            else update_stats_buffer_with_tx_timestamp config seq_num (kernel_tx_ns m)
                StatsMode.server_roundtrip s.collector;
      },
    )

-- The mode under which the client's statistics look for the packet.
unfoldable pub correlation_mode : StatsCollector → StatsMode
correlation_mode collector =
    if collector.program_mode == stats_mode_code StatsMode.client_oneway
    then StatsMode.client_oneway
    else StatsMode.client_roundtrip

-- What the client does with a message, with its own address and port.
unfoldable pub client_tx_message : StatsConfig → Bool → Bytes → ℕ → Message → TxState → ℕ × TxState
unfolding log_entry correlation_mode
client_tx_message config csv_enabled src_ip src_port m s =
    let seq_num = sequence_number m in
    let entry = create_csv_client_oneway_tx seq_num src_ip (src_port % 2 ^ 16) (kernel_tx_ns m) in
    let (processed, log) = log_entry csv_enabled entry s.tx_csv_buffer in
    (
      processed,
      record {
        tx_csv_buffer = log;
        collector = elim (s.collector) [
          | none ↦ none
          | some collector ↦
              if config.enabled == 0
              then some collector
              else update_stats_buffer_with_tx_timestamp config seq_num (kernel_tx_ns m)
                  (correlation_mode collector) (some collector)
        ];
      },
    )

-- What `recvmsg` gives: a message, or an error other than EAGAIN, after which the loop goes on. Where
-- the list of these ends the queue is empty.
pub data Receipt : Type 0 where
  message : Message → Receipt
  failed : Receipt

module _ (handle : Message → TxState → ℕ × TxState) where
  -- The loop for a number of rounds: the number of entries, what is left in the queue, and the state.
  unfoldable pub process_rounds : ℕ → List Receipt → TxState → ℕ × List Receipt × TxState
  process_rounds zero queue s = (0, queue, s)
  process_rounds (suc rounds) [] s = (0, [], s)
  process_rounds (suc rounds) (failed ∷ queue) s = process_rounds rounds queue s
  process_rounds (suc rounds) (message m ∷ queue) s =
      let (one, t) = handle m s in
      let (more, left, end) = process_rounds rounds queue t in (one + more, left, end)

  -- TX_TIMESTAMP_BATCH_SIZE is 256.
  unfoldable pub process_tx_timestamps :
      StatsConfig → List Receipt → TxState → ℕ × List Receipt × TxState
  process_tx_timestamps config queue s = elim (s.tx_csv_buffer) [
    | none ↦ if config.enabled == 0 then (0, queue, s) else process_rounds 256 queue s
    | some buffer ↦ process_rounds 256 queue s
  ]

  -- `do { batch_processed = ...; } while (batch_processed > 0);`
  unfoldable pub drain : ℕ → StatsConfig → List Receipt → TxState → Option (List Receipt × TxState)
  drain zero config queue s = none
  drain (suc fuel) config queue s =
      let (processed, left, t) = process_tx_timestamps config queue s in
      elim processed [ zero ↦ some (left, t) | suc n ↦ drain fuel config left t ]

-- The functions of the two programs.
unfoldable pub server_process_tx_timestamps :
    StatsConfig → Bool → Option Correlation → List Receipt → TxState → ℕ × List Receipt × TxState
unfolding process_tx_timestamps
server_process_tx_timestamps config csv_enabled correlation =
    process_tx_timestamps (server_tx_message config csv_enabled correlation) config

unfoldable pub client_process_tx_timestamps :
    StatsConfig → Bool → Bytes → ℕ → List Receipt → TxState → ℕ × List Receipt × TxState
unfolding process_tx_timestamps
client_process_tx_timestamps config csv_enabled src_ip src_port =
    process_tx_timestamps (client_tx_message config csv_enabled src_ip src_port) config
