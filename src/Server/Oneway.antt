-- ===== src/Server/Oneway.antt =====
-- The loop of `run_server_oneway` of src/timestamp_server.c, and the entries that it logs.
use trading_latency_benchmar.Prelude.{
  ℕ, ◌+◌, ◌%◌, ◌^◌, ◌<◌, ◌≡◌, refl, arith, Bool, true, Option, none, some, List, [], ◌∷◌, length,
  ◌-◌, take, leb, read_u32, ◌==◌, if◌then◌else◌,
}
use trading_latency_benchmar.Stats.Entry.{StatsConfig, StatsMode, TimestampMode}
use trading_latency_benchmar.Stats.Collector.{
  StatsCollector, create_minimal_stats_entry, update_stats_buffer_with_rx_timestamps,
}
use trading_latency_benchmar.Csv.{
  CsvType, CsvRingBuffer, CsvEntry, csv_enqueue_fast, create_csv_server_oneway_main,
}
use trading_latency_benchmar.Csv.Logged.{Logged, nil-Logged, cons-Logged}
use trading_latency_benchmar.Csv.Queue.{IsReady, csv_enqueue_fast-PushedTo}
use trading_latency_benchmar.Timing.{Limits, Instant, live_rounds}
use trading_latency_benchmar.Server.Correlation.{to_ns}
use trading_latency_benchmar.Server.Sender.{Received, packet_seq}

-- What `recvmsg` gives: a packet, whose timestamps are zero where it has none, EAGAIN, or another error.
pub data Polled : Type 0 where
  packet : Received → Polled
  nothing_yet poll_failed : Polled

-- What the loop changes.
pub record OnewayServer : Type 0 where
  pub collector : Option StatsCollector
  pub csv_buffer : Option CsvRingBuffer
  pub total_packets_received : ℕ
  pub packets_received : ℕ

unfoldable pub received_entry : Received → CsvEntry
unfolding packet_seq
received_entry r =
    create_csv_server_oneway_main (packet_seq r) r.src_ip_text (r.src_port % 2 ^ 16) (to_ns r.hw_rx)
      (to_ns r.ker_rx) (to_ns r.app_rx)

-- The body of the loop for a packet.
unfoldable pub receive_oneway : StatsConfig → Bool → Received → OnewayServer → OnewayServer
unfolding packet_seq received_entry
receive_oneway config csv_enabled r s =
    let seq = packet_seq r in
    record {
      collector =
          if config.enabled == 0
          then s.collector
          else update_stats_buffer_with_rx_timestamps config seq (to_ns r.hw_rx) (to_ns r.ker_rx)
              (to_ns r.app_rx) 0 StatsMode.server_oneway
              (create_minimal_stats_entry config seq r.src_port TimestampMode.server_oneway
                s.collector);
      csv_buffer = elim (s.csv_buffer) [
        | none ↦ none
        | some buffer ↦
            if csv_enabled then some (csv_enqueue_fast buffer (received_entry r)).1 else some buffer
      ];
      total_packets_received = (s.total_packets_received + 1) % 2 ^ 64;
      packets_received = (s.packets_received + 1) % 2 ^ 64;
    }

unfoldable pub poll_all : StatsConfig → Bool → List Polled → OnewayServer → OnewayServer
unfolding receive_oneway
poll_all config csv_enabled [] s = s
poll_all config csv_enabled (packet r ∷ polled) s =
    poll_all config csv_enabled polled (receive_oneway config csv_enabled r s)
poll_all config csv_enabled (nothing_yet ∷ polled) s = poll_all config csv_enabled polled s
poll_all config csv_enabled (poll_failed ∷ polled) s = s

-- From the start of the loop to its end.
unfoldable pub run_server_oneway :
    StatsConfig → Bool → Limits → ℕ → List (Instant × Polled) → OnewayServer → OnewayServer
unfolding poll_all live_rounds
run_server_oneway config csv_enabled limits cycles timed =
    poll_all config csv_enabled
      (live_rounds limits (record { loop_counter = 0; last_time_check_cycles = cycles }) timed)

-- The packets that come before an error.
unfoldable pub packets_of : List Polled → List Received
packets_of [] = []
packets_of (packet r ∷ polled) = r ∷ packets_of polled
packets_of (nothing_yet ∷ polled) = packets_of polled
packets_of (poll_failed ∷ polled) = []

-- The entries that are to be logged for some packets: the number is at the start of the packet, or, if that
-- is too short, (uint32_t)-1; the hardware, kernel and application RX timestamps are at places 7 to 9.
pub received_entries : List Received → List CsvEntry
received_entries [] = []
received_entries (r ∷ rs) =
    record {
      seq_num = if leb 4 (length r.packet) then read_u32 r.packet 0 else 2 ^ 32 - 1;
      timestamp_ns =
          0 ∷ 0 ∷ 0 ∷ 0 ∷ 0 ∷ 0 ∷ 0 ∷ to_ns r.hw_rx ∷ to_ns r.ker_rx ∷ to_ns r.app_rx ∷ 0 ∷ 0 ∷ [];
      src_ip = take 15 r.src_ip_text;
      src_port = r.src_port % 2 ^ 16;
      csv_type = CsvType.server_main_oneway;
    }
    ∷ received_entries rs

module _ (config : StatsConfig) where
  -- Over any packets, with the CSV log on and its buffer in order: the log holds what it held, followed by
  -- one entry for each received packet up to an error, in order, as many as find room; and each packet is
  -- counted once.
  pub poll_all-Logged :
      (polled : List Polled) (s : OnewayServer) (b : CsvRingBuffer)
      → s.total_packets_received < 2 ^ 64
      → s.csv_buffer ≡ some b
      → IsReady b
      → let t = poll_all config true polled s in
        Logged b (received_entries (packets_of polled)) t.csv_buffer
        × (t.total_packets_received
            ≡ (s.total_packets_received + length (packets_of polled)) % 2 ^ 64)
  unfolding poll_all receive_oneway packets_of received_entries received_entry packet_seq
  poll_all-Logged [] s b word on v = (nil-Logged on v, omega arith)
  poll_all-Logged (packet r ∷ polled) s b word on v =
      let pushed = csv_enqueue_fast-PushedTo v (received_entry r) in
      let (rest, counted) =
        poll_all-Logged polled (receive_oneway config true r s)
          (csv_enqueue_fast b (received_entry r)).1 (omega arith) (rw on refl) pushed.valid in
      (cons-Logged pushed rest, omega (arith, counted))
  poll_all-Logged (nothing_yet ∷ polled) s b word on v = poll_all-Logged polled s b word on v
  poll_all-Logged (poll_failed ∷ polled) s b word on v = (nil-Logged on v, omega arith)

  -- With the CSV log on and its buffer in order: after the loop of `run_server_oneway` the log holds what it
  -- held, followed by one entry for each packet that is received, in a round that the check of the time
  -- lets through, up to an error, in order, with the number at the packet's start, the sender, and the
  -- hardware, kernel and application RX timestamps at places 7 to 9, as many as find room; and each packet is
  -- counted once.
  pub run_server_oneway-Logged :
      (limits : Limits) (cycles : ℕ) (timed : List (Instant × Polled)) (s : OnewayServer)
      (b : CsvRingBuffer)
      → s.total_packets_received < 2 ^ 64
      → s.csv_buffer ≡ some b
      → IsReady b
      → let reached =
          live_rounds limits (record { loop_counter = 0; last_time_check_cycles = cycles }) timed in
        let t = run_server_oneway config true limits cycles timed s in
        Logged b (received_entries (packets_of reached)) t.csv_buffer
        × (t.total_packets_received
            ≡ (s.total_packets_received + length (packets_of reached)) % 2 ^ 64)
  unfolding run_server_oneway
  run_server_oneway-Logged limits cycles timed s b word on v =
      poll_all-Logged
        (live_rounds limits (record { loop_counter = 0; last_time_check_cycles = cycles }) timed) s
        b word on v
