-- ===== src/Server/Sender.antt =====
-- The two threads of `run_server_roundtrip` of src/timestamp_server.c around the queue: what the RX
-- thread does with a received packet, and one round of the loop of `tx_thread_func`.
pub mod Rounds
pub mod Log
pub mod Served
use trading_latency_benchmar.Prelude.{
  ℕ, zero, suc, ◌+◌, ◌-◌, ◌*◌, ◌%◌, ◌^◌, min, max, Bool, true, false, ◌&&◌, not, Option, none, some,
  List, [], ◌∷◌, length, take, get_or, map, ltb, leb, ◌==◌, if◌then◌else◌, Bytes, read_u32,
}
use trading_latency_benchmar.Ring.Index.{index_distance}
use trading_latency_benchmar.Stats.Entry.{StatsConfig, StatsMode, TimestampMode}
use trading_latency_benchmar.Stats.Collector.{
  StatsCollector, create_minimal_stats_entry, update_stats_buffer_with_rx_timestamps,
  update_stats_buffer_with_app_tx_timestamp,
}
use trading_latency_benchmar.Csv.{
  CsvRingBuffer, CsvEntry, csv_enqueue_fast, create_csv_server_roundtrip_main,
}
use trading_latency_benchmar.Server.Requests.{
  ReturnPacketRequest, ReturnPacketQueue, enqueue_return_packet_request,
  dequeue_return_packet_batch,
}
use trading_latency_benchmar.Server.Correlation.{
  Timespec, zero_ts, to_ns, get_circular_index, Correlation, store_server_rx_timestamps,
}

-- A packet as `recvmsg` gives it, with its sender, the sender's address as `inet_ntop` writes it, and its
-- three timestamps.
pub record Received : Type 0 where
  pub packet : Bytes
  pub src_ip : ℕ
  pub src_ip_text : Bytes
  pub src_port : ℕ
  pub hw_rx : Timespec
  pub ker_rx : Timespec
  pub app_rx : Timespec

-- The sequence number; a packet that is too short has (uint32_t)-1.
unfoldable pub packet_seq : Received → ℕ
packet_seq r = if leb 4 (length r.packet) then read_u32 r.packet 0 else 2 ^ 32 - 1

-- The port to answer to: the one that the client asks for, if it is positive as an int, else the
-- sender's.
unfoldable pub answer_port : Received → ℕ
answer_port r =
    let client_rx_port = read_u32 r.packet 4 in
    if ltb 0 client_rx_port && ltb client_rx_port (2 ^ 31)
    then client_rx_port % 2 ^ 16
    else r.src_port

unfoldable pub request_of : Received → ReturnPacketRequest
unfolding packet_seq answer_port
request_of r = record {
  seq_num = packet_seq r;
  return_ip = r.src_ip;
  return_port = answer_port r;
  packet_data = take 8 r.packet;
  packet_size = length r.packet;
  original_client_src_port = r.src_port;
}

-- What the two threads share.
pub record Shared : Type 0 where
  pub queue : ReturnPacketQueue
  pub correlation : Option Correlation
  pub collector : Option StatsCollector
  pub csv_buffer : Option CsvRingBuffer
  pub packets_received : ℕ
  pub packets_sent : ℕ

-- The first part of the RX thread's work on a packet: count it and queue the answer.
unfoldable pub receive_queue : Received → Shared → Shared
unfolding request_of
receive_queue r s =
    let counted = record s { packets_received = (s.packets_received + 1) % 2 ^ 64 } in
    if leb 8 (length r.packet)
    then record counted { queue = (enqueue_return_packet_request s.queue (request_of r)).1 }
    else counted

-- The second part: store the RX timestamps for the TX side, and record them in the statistics.
unfoldable pub receive_store : StatsConfig → Received → Shared → Shared
unfolding packet_seq
receive_store config r s =
    let seq = packet_seq r in
    let recorded =
      update_stats_buffer_with_rx_timestamps config seq (to_ns r.hw_rx) (to_ns r.ker_rx)
        (to_ns r.app_rx) 0 StatsMode.server_roundtrip
        (create_minimal_stats_entry config seq r.src_port TimestampMode.server_roundtrip
          s.collector) in
    record s {
      correlation =
          store_server_rx_timestamps seq r.hw_rx r.ker_rx r.app_rx r.src_ip_text r.src_port
            s.correlation;
      collector = if config.enabled == 0 then s.collector else recorded;
    }

-- The size of the next batch, for the depth of the queue.
unfoldable pub target_batch_size : ℕ → ReturnPacketQueue → ℕ
target_batch_size max_batch_size q =
    let queue_depth = index_distance q.size_mask q.tail q.head in
    max (if ltb 0 queue_depth then min max_batch_size queue_depth else 1) 1

-- A packet on the wire: where it goes and its bytes.
pub record Packet : Type 0 where
  pub ip : ℕ
  pub port : ℕ
  pub bytes : Bytes

-- `construct_return_packet` copies the sequence number.
abbrev pub construct_return_packet : Bytes → Bytes
construct_return_packet original_packet = take 4 original_packet

abbrev pub prepare : ReturnPacketRequest → Packet
prepare req = record {
  ip = req.return_ip;
  port = req.return_port;
  bytes = construct_return_packet req.packet_data;
}

-- What `sendmmsg` says: a number of packets, EAGAIN, or another error, after which `sendto` is called
-- for each packet and sends this many of them.
pub data SendResult : Type 0 where
  sent : ℕ → SendResult
  would_block : SendResult
  fallback : ℕ → SendResult

-- The entry of the CSV log for a packet that was sent at a time.
unfoldable pub sent_entry : Correlation → ReturnPacketRequest → ℕ → CsvEntry
unfolding get_circular_index
sent_entry c req app_tx_ns =
    let index = get_circular_index req.seq_num in
    create_csv_server_roundtrip_main req.seq_num (get_or c.client_ips index [])
      (req.original_client_src_port % 2 ^ 16) (to_ns (get_or c.hw_rx index zero_ts))
      (to_ns (get_or c.ker_rx index zero_ts)) (to_ns (get_or c.app_rx index zero_ts)) app_tx_ns

-- One round of the loop over the sent packets. The CSV log takes the entry if it is on, as `csv_on`
-- says, and all arrays are there.
unfoldable pub correlate : StatsConfig → Bool → ReturnPacketRequest → ℕ → Shared → Shared
unfolding sent_entry
correlate config csv_on req app_tx_ns s = record s {
  collector =
      if config.enabled == 0
      then s.collector
      else update_stats_buffer_with_app_tx_timestamp config req.seq_num app_tx_ns 0
          StatsMode.server_roundtrip s.collector;
  csv_buffer = elim (s.csv_buffer) [
    | none ↦ none
    | some buffer ↦ elim (s.correlation) [
      | none ↦ some buffer
      | some c ↦
          if csv_on
          then some (csv_enqueue_fast buffer (sent_entry c req app_tx_ns)).1
          else some buffer
    ]
  ];
}

-- The loop, with the time of each packet.
unfoldable pub correlate_all :
    StatsConfig → Bool → List ReturnPacketRequest → List ℕ → Shared → Shared
correlate_all config csv_on [] times s = s
correlate_all config csv_on (req ∷ reqs) [] s = s
correlate_all config csv_on (req ∷ reqs) (time ∷ times) s =
    correlate_all config csv_on reqs times (correlate config csv_on req time s)

-- What the thread does with a batch, with the times that are taken and what the socket says. Packets that
-- `sendto` sends are counted only.
unfoldable pub send_batch :
    StatsConfig → Bool → List ReturnPacketRequest → List ℕ → SendResult → Shared → Shared
send_batch config csv_on [] times result s = s
send_batch config csv_on (req ∷ reqs) times would_block s = s
send_batch config csv_on (req ∷ reqs) times (fallback n) s = record s {
  packets_sent = (s.packets_sent + n) % 2 ^ 64;
}
send_batch config csv_on (req ∷ reqs) times (sent n) s =
    correlate_all config csv_on (take n (req ∷ reqs)) times
      (record s { packets_sent = (s.packets_sent + n) % 2 ^ 64 })

-- One round of the loop of `tx_thread_func`: the packets that are given to the socket, and the state
-- after.
unfoldable pub tx_round :
    StatsConfig → Bool → ℕ → List ℕ → SendResult → Shared → List Packet × Shared
unfolding target_batch_size
tx_round config csv_on max_batch_size times result s =
    let (batch, queue) =
      dequeue_return_packet_batch (target_batch_size max_batch_size s.queue) s.queue in
    (map prepare batch, send_batch config csv_on batch times result (record s { queue = queue }))
