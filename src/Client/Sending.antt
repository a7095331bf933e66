-- ===== src/Client/Sending.antt =====
-- The packets of src/timestamp_client.c, and what the loops of `run_client_oneway` and
-- `run_client_roundtrip` do.
pub mod Packets
pub mod Sent
use trading_latency_benchmar.Prelude.{
  ℕ, zero, suc, ◌+◌, ◌-◌, ◌*◌, ◌/◌, ◌%◌, ◌^◌, Bool, true, false, ◌&&◌, ◌||◌, not, Option, none,
  some, List, [], ◌∷◌, ◌++◌, set, get_or, length, take, replicate, leb, ◌==◌, if◌then◌else◌, Bytes,
  read_u32,
}
use trading_latency_benchmar.Stats.Entry.{StatsConfig, StatsMode, TimestampMode}
use trading_latency_benchmar.Stats.Collector.{
  StatsCollector, Status, create_minimal_stats_entry, update_stats_buffer_with_app_tx_timestamp,
  update_stats_buffer_with_rx_timestamps,
}
use trading_latency_benchmar.Csv.{
  CsvRingBuffer, CsvEntry, csv_enqueue_fast, create_csv_client_oneway_main,
  create_csv_client_roundtrip_rx,
}
use trading_latency_benchmar.Server.Correlation.{Timespec, zero_ts, to_ns, get_circular_index}
use trading_latency_benchmar.ErrorQueue.{Control, extract_rx_timestamps}
use trading_latency_benchmar.Timing.{Limits, Instant, live_rounds}
use trading_latency_benchmar.Client.Arrays.{
  TxCorrelation, zeroed_arrays, store_tx_timestamp, store_tx_timestamps, Clock, tsc_to_timespec,
}

-- memcpy of htonl(v) to a place of the packet.
abbrev pub put_u32 : Bytes → ℕ → ℕ → Bytes
put_u32 packet i v =
    set
      (set (set (set packet i (v / 16777216 % 256)) (i + 1) (v / 65536 % 256)) (i + 2)
        (v / 256 % 256))
      (i + 3) (v % 256)

-- The packet for a number, over what its buffer held. In round-trip mode it names the port for the answer.
unfoldable pub fill_packet : Option ℕ → ℕ → Bytes → Bytes
fill_packet none seq_num packet = put_u32 packet 0 seq_num
fill_packet (some rx_port) seq_num packet = put_u32 (put_u32 packet 0 seq_num) 4 rx_port

-- What is taken for a packet before it is sent: the time and the counter, which is 0 if it is not
-- reliable; and the two clocks of the two conversions of the counter afterwards.
pub record Sample : Type 0 where
  pub app_tx_ts : Timespec
  pub tx_tsc : ℕ
  pub sec_clock : Clock
  pub nsec_clock : Clock

-- What the client's threads share, with the variables of the sending loop.
pub record ClientState : Type 0 where
  pub packet_buffers : List Bytes
  pub seq_num : ℕ
  pub total_packets_sent : ℕ
  pub packets_sent : ℕ
  pub packets_received : ℕ
  pub local_packets_received : ℕ
  pub hotpath_errors : ℕ
  pub correlation : TxCorrelation
  pub collector : Option StatsCollector
  pub csv_buffer : Option CsvRingBuffer

-- The current number `i` packets on: `seq_num + i` as uint32_t.
abbrev pub advance : ℕ → ℕ → ℕ
advance seq_num i = (seq_num + i) % 2 ^ 32

-- The first `batch_count` buffers are filled.
unfoldable pub fill_batch : Option ℕ → ℕ → ℕ → List Bytes → List Bytes
unfolding fill_packet
fill_batch rx_port seq_num zero buffers = buffers
fill_batch rx_port seq_num (suc batch_count) [] = []
fill_batch rx_port seq_num (suc batch_count) (packet ∷ buffers) =
    fill_packet rx_port seq_num packet ∷ fill_batch rx_port (advance seq_num 1) batch_count buffers

-- BATCH_SIZE is 128.
abbrev pub batch_count_for : ℕ → ℕ
batch_count_for pps = if leb 128 pps then 128 else 1

-- The log with an entry, if the log is on and there.
abbrev pub log_if : Bool → CsvEntry → Option CsvRingBuffer → Option CsvRingBuffer
log_if csv_enabled entry none = none
log_if csv_enabled entry (some buffer) =
    if csv_enabled then some (csv_enqueue_fast buffer entry).1 else some buffer

abbrev pub oneway_entry : Bytes → ℕ → ℕ → Sample → CsvEntry
oneway_entry src_ip src_port seq_num x =
    create_csv_client_oneway_main seq_num src_ip (src_port % 2 ^ 16) (to_ns x.app_tx_ts)

module _ (config : StatsConfig) (csv_enabled : Bool) (src_ip : Bytes) (src_port : ℕ) where
  -- What is recorded of a packet that was sent one-way.
  unfoldable pub record_oneway : ℕ → Sample → ClientState → ClientState
  record_oneway seq_num x s = record s {
    collector =
        if config.enabled == 0
        then s.collector
        else update_stats_buffer_with_app_tx_timestamp config seq_num (to_ns x.app_tx_ts) 0
            StatsMode.client_oneway
            (create_minimal_stats_entry config seq_num src_port TimestampMode.client_oneway
              s.collector);
    csv_buffer = log_if csv_enabled (oneway_entry src_ip src_port seq_num x) s.csv_buffer;
  }

  unfoldable pub record_all_oneway : ℕ → List Sample → ClientState → ClientState
  record_all_oneway seq_num [] s = s
  record_all_oneway seq_num (x ∷ xs) s =
      record_all_oneway (advance seq_num 1) xs (record_oneway seq_num x s)

-- The loop that stores the times of the packets that were sent one-way, and that of round-trip mode.
unfoldable pub store_times : ℕ → List Sample → TxCorrelation → TxCorrelation
store_times seq_num [] c = c
store_times seq_num (x ∷ xs) c =
    store_times (advance seq_num 1) xs (store_tx_timestamp seq_num x.app_tx_ts c)

unfoldable pub store_all_times : ℕ → List Sample → TxCorrelation → TxCorrelation
store_all_times seq_num [] c = c
store_all_times seq_num (x ∷ xs) c =
    store_all_times (advance seq_num 1) xs (store_tx_timestamps seq_num x.app_tx_ts x.tx_tsc c)

-- The statistics of the packets that were sent in round-trip mode. The seconds are of one conversion of
-- the counter and the nanoseconds of another.
unfoldable pub record_all_roundtrip :
    StatsConfig → ℕ → ℕ → List Sample → Option StatsCollector → Option StatsCollector
record_all_roundtrip config src_port seq_num [] collector = collector
record_all_roundtrip config src_port seq_num (x ∷ xs) collector =
    let tsc_ns = to_ns (record {
      tv_sec = (tsc_to_timespec x.sec_clock x.tx_tsc).tv_sec;
      tv_nsec = (tsc_to_timespec x.nsec_clock x.tx_tsc).tv_nsec;
    }) in
    record_all_roundtrip config src_port (advance seq_num 1) xs (
      update_stats_buffer_with_app_tx_timestamp config seq_num (to_ns x.app_tx_ts) tsc_ns
        StatsMode.client_roundtrip
        (create_minimal_stats_entry config seq_num src_port TimestampMode.client_roundtrip
          collector))

-- The counters after a batch.
abbrev pub count_sent : ℕ → ClientState → ClientState
count_sent n s = record s {
  seq_num = advance s.seq_num n;
  total_packets_sent = (s.total_packets_sent + n) % 2 ^ 64;
  packets_sent = (s.packets_sent + n) % 2 ^ 64;
}

-- What `sendmmsg` says: a number of packets, EAGAIN, after which the loop goes on, or another error,
-- which ends it.
pub data SendOutcome : Type 0 where
  sent : ℕ → SendOutcome
  would_block send_failed : SendOutcome

-- A round of the loop of `run_client_oneway`, behind the check of the time: whether the loop goes on, the
-- packets that are sent, and the state. There is a sample for each packet of the batch.
unfoldable pub oneway_round :
    StatsConfig
    → Bool
    → Bytes
    → ℕ
    → ℕ
    → List Sample
    → SendOutcome
    → ClientState
    → Bool × List Bytes × ClientState
unfolding fill_batch store_times
oneway_round config csv_enabled src_ip src_port pps samples outcome s =
    let buffers = fill_batch none s.seq_num (batch_count_for pps) s.packet_buffers in
    let filled = record s { packet_buffers = buffers } in
    elim outcome [
      | would_block ↦ (true, [], filled)
      | send_failed ↦ (false, [], filled)
      | sent n ↦
          let told =
            record_all_oneway config csv_enabled src_ip src_port s.seq_num (take n samples)
              filled in
          (
            true,
            take n buffers,
            count_sent n (record told {
              correlation = store_times s.seq_num (take n samples) told.correlation;
            }),
          )
    ]

-- A round of the loop of `run_client_roundtrip`.
unfoldable pub roundtrip_round :
    StatsConfig
    → ℕ
    → ℕ
    → ℕ
    → List Sample
    → SendOutcome
    → ClientState
    → Bool × List Bytes × ClientState
unfolding fill_batch store_all_times
roundtrip_round config src_port rx_port pps samples outcome s =
    let buffers = fill_batch (some rx_port) s.seq_num (batch_count_for pps) s.packet_buffers in
    let filled = record s { packet_buffers = buffers } in
    elim outcome [
      | would_block ↦ (true, [], filled)
      | send_failed ↦ (false, [], filled)
      | sent n ↦ (
        true,
        take n buffers,
        count_sent n (record filled {
          correlation = store_all_times s.seq_num (take n samples) s.correlation;
          collector =
              if config.enabled == 0
              then s.collector
              else record_all_roundtrip config src_port s.seq_num (take n samples) s.collector;
        }),
      )
    ]

-- A round of the sending loop: the samples of its batch and what the socket says.
pub record Round : Type 0 where
  pub samples : List Sample
  pub outcome : SendOutcome

-- The loop, with one of the two kinds of rounds: the packets that are sent, and the state after it.
unfoldable pub run_rounds :
    (List Sample → SendOutcome → ClientState → Bool × List Bytes × ClientState)
    → List Round
    → ClientState
    → List Bytes × ClientState
run_rounds step [] s = ([], s)
run_rounds step (round ∷ rounds) s =
    let (go_on, packets, t) = step round.samples round.outcome s in
    let (more, end) = run_rounds step rounds t in
    if go_on then (packets ++ more, end) else (packets, t)

-- The rounds of the two modes.
unfoldable pub oneway_rounds :
    StatsConfig → Bool → Bytes → ℕ → ℕ → List Round → ClientState → List Bytes × ClientState
unfolding run_rounds oneway_round
oneway_rounds config csv_enabled src_ip src_port pps =
    run_rounds (oneway_round config csv_enabled src_ip src_port pps)

unfoldable pub roundtrip_rounds :
    StatsConfig → ℕ → ℕ → ℕ → List Round → ClientState → List Bytes × ClientState
unfolding run_rounds roundtrip_round
roundtrip_rounds config src_port rx_port pps =
    run_rounds (roundtrip_round config src_port rx_port pps)

-- `run_client_oneway` and `run_client_roundtrip` from the start of the loop to its end, with the counter of
-- cycles at the start.
unfoldable pub run_client_oneway :
    StatsConfig
    → Bool
    → Bytes
    → ℕ
    → ℕ
    → Limits
    → ℕ
    → List (Instant × Round)
    → ClientState
    → List Bytes × ClientState
unfolding oneway_rounds live_rounds
run_client_oneway config csv_enabled src_ip src_port pps limits cycles timed s =
    oneway_rounds config csv_enabled src_ip src_port pps
      (live_rounds limits (record { loop_counter = 0; last_time_check_cycles = cycles }) timed) s

unfoldable pub run_client_roundtrip :
    StatsConfig
    → ℕ
    → ℕ
    → ℕ
    → Limits
    → ℕ
    → List (Instant × Round)
    → ClientState
    → List Bytes × ClientState
unfolding roundtrip_rounds live_rounds
run_client_roundtrip config src_port rx_port pps limits cycles timed s =
    roundtrip_rounds config src_port rx_port pps
      (live_rounds limits (record { loop_counter = 0; last_time_check_cycles = cycles }) timed) s
