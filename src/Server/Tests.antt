-- ===== src/Server/Tests.antt =====
-- Concrete runs of the server: a queue of four places with one waiting request, empty correlation arrays,
-- and a CSV log of four places.
use trading_latency_benchmar.Prelude.{
  ℕ, ◌+◌, ◌%◌, ◌^◌, ◌≡◌, refl, arith, true, false, length, Option, none, some, List, [], ◌∷◌, ◌++◌,
  map, take, codes,
}
use trading_latency_benchmar.Stats.Entry.{StatsConfig}
use trading_latency_benchmar.Csv.{CsvRingBuffer, CsvEntry, create_csv_server_roundtrip_main}
use trading_latency_benchmar.Csv.Logged.{Logged}
use trading_latency_benchmar.Csv.Queue.{IsReady}
use trading_latency_benchmar.Server.Requests.{ReturnPacketQueue, ReturnPacketRequest, no_request}
use trading_latency_benchmar.Server.Requests.Order.{IsQueue, waiting}
use trading_latency_benchmar.Server.Correlation.{Timespec, empty_correlation, Correlation}
use trading_latency_benchmar.Server.Correlation.Kept.{Stored, store, store_all}
use trading_latency_benchmar.Server.Sender.{Received, Shared, SendResult, prepare}
use trading_latency_benchmar.Server.Sender.Rounds.Step.{
  Event, queue_packet, store_packet, send_round, run, abstract_run,
}
use trading_latency_benchmar.Timing.{Instant, server_limits, live_rounds}
use trading_latency_benchmar.Server.Oneway.{
  Polled, OnewayServer, run_server_oneway, packets_of, received_entries, run_server_oneway-Logged,
}
use mathlib.Core.List.{Sublist}
use trading_latency_benchmar.Server.Roundtrip.{
  run_server_roundtrip, received_among, requests_for, run_server_roundtrip-answers,
}
use trading_latency_benchmar.Server.Sender.Served.{rounds_in, run-served}
use trading_latency_benchmar.Server.Sender.Rounds.{Ran, run-Ran}
use trading_latency_benchmar.Server.Sender.Log.{stored_of}

abbrev request : ℕ → ReturnPacketRequest
request seq = record no_request {
  seq_num = seq;
  packet_data = 0 ∷ 0 ∷ 0 ∷ seq ∷ 0 ∷ 0 ∷ 19 ∷ 136 ∷ [];
  packet_size = 8;
}

abbrev queue : ReturnPacketQueue
queue = record {
  requests = request 5 ∷ no_request ∷ no_request ∷ request 4 ∷ [];
  head = 3;
  tail = 1;
  size_mask = 3;
}

queue-IsQueue : IsQueue queue
queue-IsQueue = record {
  ones = record { width = 2; wide = omega arith; ones = refl };
  sized = refl;
  head_in = omega arith;
  tail_in = omega arith;
}

-- With nothing in it.
idle-IsQueue : IsQueue (record queue { head = 1 })
idle-IsQueue = record {
  ones = record { width = 2; wide = omega arith; ones = refl };
  sized = refl;
  head_in = omega arith;
  tail_in = omega arith;
}

abbrev at_ns : ℕ → Timespec
at_ns n = record { tv_sec = 1; tv_nsec = n }

abbrev received : ℕ → Received
received seq = record {
  packet = 0 ∷ 0 ∷ 0 ∷ seq ∷ 0 ∷ 0 ∷ 19 ∷ 136 ∷ 7 ∷ [];
  src_ip = 167772161;
  src_ip_text = codes "10.0.0.1";
  src_port = 6000;
  hw_rx = at_ns (100 + seq);
  ker_rx = at_ns (200 + seq);
  app_rx = at_ns (300 + seq);
}

abbrev stored : ℕ → Stored
stored seq = record {
  seq_num = seq;
  hw = at_ns (100 + seq);
  ker = at_ns (200 + seq);
  app = at_ns (300 + seq);
  client_ip = codes "10.0.0.1";
  client_port = 6000;
}

-- The whole statistics are off; the CSV log is on.
abbrev config : StatsConfig
config = record { enabled = 0; buffer_size = 100000; bin_width_us = 1; max_bins = 100 }

abbrev entry : ℕ → CsvEntry
entry seq = create_csv_server_roundtrip_main seq [] 6000 0 0 0 0

abbrev log_buffer : CsvRingBuffer
log_buffer = record {
  entries = entry 1 ∷ entry 2 ∷ entry 3 ∷ entry 4 ∷ [];
  head = 0;
  tail = 3;
  size_mask = 3;
}

log_buffer-IsReady : IsReady log_buffer
log_buffer-IsReady = record {
  ones = record { width = 2; wide = omega arith; ones = refl };
  sized = refl;
  head_in = omega arith;
  tail_in = omega arith;
}

abbrev shared : Option Correlation → Shared
shared correlation = record {
  queue = queue;
  correlation = correlation;
  collector = none;
  csv_buffer = some log_buffer;
  packets_received = 5;
  packets_sent = 3;
}

-- A packet is queued, a round of two is sent, and then the packet's timestamps are stored.
abbrev events : List Event
events =
    queue_packet (received 7)
    ∷ send_round 2 (1000 ∷ 2000 ∷ []) (SendResult.sent 2)
    ∷ store_packet (received 7)
    ∷ queue_packet (received 8)
    ∷ []

run-Ran_example :
    Ran
      (abstract_run 3 events (waiting queue))
      (run config true events (shared (some empty_correlation))).0
      (run config true events (shared (some empty_correlation))).1
run-Ran_example = run-Ran config true events (shared (some empty_correlation)) queue-IsQueue

-- The arrays once three packets are stored.
abbrev arrays : Option Correlation
arrays =
    store_all (stored 8 ∷ stored 9 ∷ []) (store (stored_of (received 7)) (some empty_correlation))

-- One round, one of the two waiting requests at least.
run-served_example :
    take 1 (run config true events (shared none)).0 ≡ map prepare (take 1 (waiting queue))
unfolding rounds_in
run-served_example =
    run-served config true events (shared none) 1 queue-IsQueue (omega arith) (omega arith)

abbrev oneway : OnewayServer
oneway = record {
  collector = none;
  csv_buffer = some log_buffer;
  total_packets_received = 2;
  packets_received = 2;
}

-- A packet, nothing, and another packet, in a run without an end.
abbrev instant : Instant
instant = record { graceful_shutdown = false; cycles = 1; current_time = 1; cycles_after = 1 }

abbrev polled : List (Instant × Polled)
polled =
    (instant, Polled.packet (received 7))
    ∷ (instant, Polled.nothing_yet)
    ∷ (instant, Polled.packet (received 8))
    ∷ []

run_server_oneway-Logged_example :
    let reached =
      live_rounds
        (server_limits 0 0 100)
        (record { loop_counter = 0; last_time_check_cycles = 0 })
        polled in
    let t = run_server_oneway config true (server_limits 0 0 100) 0 polled oneway in
    Logged log_buffer (received_entries (packets_of reached)) t.csv_buffer
    × (t.total_packets_received ≡ (2 + length (packets_of reached)) % 2 ^ 64)
run_server_oneway-Logged_example =
    run_server_oneway-Logged config (server_limits 0 0 100) 0 polled oneway log_buffer (omega arith)
      refl log_buffer-IsReady

-- The same packets in the round-trip server, from an empty queue, with a round of sending within the work
-- on the first.
abbrev idle : Shared
idle = record (shared none) { queue = record queue { head = 1 } }

abbrev roundtrip : List Event
roundtrip =
    queue_packet (received 7)
    ∷ send_round 2 (1000 ∷ 2000 ∷ []) (SendResult.sent 1)
    ∷ store_packet (received 7)
    ∷ queue_packet (received 8)
    ∷ store_packet (received 8)
    ∷ []

run_server_roundtrip-answers_example :
    let (out, t) = run config true roundtrip idle in
    let given = out ++ map prepare (waiting t.queue) in
    let reached =
      live_rounds
        (server_limits 0 0 100)
        (record { loop_counter = 0; last_time_check_cycles = 0 })
        polled in
    let answers = map prepare (requests_for (packets_of reached)) in
    Sublist given answers × (take 3 given ≡ take 3 answers)
unfolding run_server_roundtrip received_among live_rounds
run_server_roundtrip-answers_example =
    run_server_roundtrip-answers config true (server_limits 0 0 100) 0 polled roundtrip idle
      idle-IsQueue refl refl
