-- ===== src/Server/Sender/Log.antt =====
-- The CSV log of the packets that the TX thread of src/timestamp_server.c sends.
use trading_latency_benchmar.Prelude.{ℕ, ◌≡◌, refl, true, some, List, [], ◌∷◌}
use trading_latency_benchmar.Stats.Entry.{StatsConfig}
use trading_latency_benchmar.Csv.{CsvRingBuffer, CsvEntry, csv_enqueue_fast}
use trading_latency_benchmar.Csv.Logged.{Logged, nil-Logged, cons-Logged}
use trading_latency_benchmar.Csv.Queue.{IsReady, csv_enqueue_fast-PushedTo}
use trading_latency_benchmar.Server.Requests.{ReturnPacketRequest}
use trading_latency_benchmar.Server.Correlation.{Correlation}
use trading_latency_benchmar.Server.Correlation.Kept.{Stored}
use trading_latency_benchmar.Server.Sender.{
  Received, packet_seq, Shared, sent_entry, correlate, correlate_all,
}

-- The entries of packets that were sent, with the time of each.
pub sent_entries : Correlation → List ReturnPacketRequest → List ℕ → List CsvEntry
sent_entries c [] times = []
sent_entries c (req ∷ reqs) [] = []
sent_entries c (req ∷ reqs) (time ∷ times) = sent_entry c req time ∷ sent_entries c reqs times

module _ (config : StatsConfig) (c : Correlation) where
  -- With the CSV log on, the correlation arrays there, and a log buffer in order: after the loop over the
  -- sent packets the log holds what it held, followed by one entry for each sent packet in the order of
  -- sending, as many as find room.
  pub correlate_all-Logged :
      (reqs : List ReturnPacketRequest) (times : List ℕ) (s : Shared) (b : CsvRingBuffer)
      → s.correlation ≡ some c
      → s.csv_buffer ≡ some b
      → IsReady b
      → Logged b (sent_entries c reqs times) (correlate_all config true reqs times s).csv_buffer
  unfolding correlate_all correlate sent_entries
  correlate_all-Logged [] times s b arrays on v = nil-Logged on v
  correlate_all-Logged (req ∷ reqs) [] s b arrays on v = nil-Logged on v
  correlate_all-Logged (req ∷ reqs) (time ∷ times) s b arrays on v =
      let pushed = csv_enqueue_fast-PushedTo v (sent_entry c req time) in
      let rest =
        correlate_all-Logged reqs times (correlate config true req time s)
          (csv_enqueue_fast b (sent_entry c req time)).1 arrays (rw (on, arrays) refl)
          pushed.valid in
      cons-Logged pushed rest

-- A received packet as the RX thread stores it.
abbrev pub stored_of : Received → Stored
stored_of r = record {
  seq_num = packet_seq r;
  hw = r.hw_rx;
  ker = r.ker_rx;
  app = r.app_rx;
  client_ip = r.src_ip_text;
  client_port = r.src_port;
}
