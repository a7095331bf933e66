-- ===== src/Client/Tests.antt =====
-- Concrete runs of the client: a batch of one packet.
use trading_latency_benchmar.Prelude.{
  refl, arith, true, false, none, some, List, [], ◌∷◌, replicate, codes,
}
use trading_latency_benchmar.Csv.{CsvRingBuffer, no_entry}
use trading_latency_benchmar.Csv.Logged.{Logged}
use trading_latency_benchmar.Csv.Queue.{IsReady}
use trading_latency_benchmar.Server.Correlation.{zero_ts}
use trading_latency_benchmar.Server.Sender.{Received}
use trading_latency_benchmar.Options.Main.{default_stats}
use trading_latency_benchmar.Timing.{Limits, client_limits, Instant, check_time, live_rounds}
use trading_latency_benchmar.Client.Arrays.{zeroed_arrays, Clock}
use trading_latency_benchmar.Client.Sending.{
  Sample, ClientState, SendOutcome, Round, run_client_oneway,
}
use trading_latency_benchmar.Client.Sending.Sent.{sent_samples, IsRound, IsReadyToSend, Sent}
use trading_latency_benchmar.Client.Log.{oneway_entries, run_client_oneway-Logged}
use trading_latency_benchmar.Client.{Answer}

abbrev log_buffer : CsvRingBuffer
log_buffer = record { entries = replicate 4 no_entry; head = 0; tail = 3; size_mask = 3 }

log_buffer-IsReady : IsReady log_buffer
log_buffer-IsReady = record {
  ones = record { width = 2; wide = omega arith; ones = refl };
  sized = refl;
  head_in = omega arith;
  tail_in = omega arith;
}

abbrev client : ClientState
client = record {
  packet_buffers = replicate 128 (replicate 12 0);
  seq_num = 7;
  total_packets_sent = 7;
  packets_sent = 7;
  packets_received = 0;
  local_packets_received = 0;
  hotpath_errors = 0;
  correlation = zeroed_arrays;
  collector = none;
  csv_buffer = some log_buffer;
}

client-IsReadyToSend : IsReadyToSend 12 client
client-IsReadyToSend = record { word = omega arith; sized = grind arith; enough = refl }

abbrev clock : Clock
clock = record {
  ref_time = record { tv_sec = 100; tv_nsec = 500 };
  time_diff_ns = λ tsc. (true, 400);
}

abbrev sample : Sample
sample = record {
  app_tx_ts = record { tv_sec = 99; tv_nsec = 7 };
  tx_tsc = 123;
  sec_clock = clock;
  nsec_clock = clock;
}

-- A round that sends one packet.
abbrev one_packet : Round
one_packet = record { samples = sample ∷ []; outcome = SendOutcome.sent 1 }

-- It is reached at the start of a second's run.
abbrev limits : Limits
limits = client_limits 1000 1 240000000

abbrev timed : List (Instant × Round)
timed =
    (
      record { graceful_shutdown = false; cycles = 10; current_time = 1000; cycles_after = 10 },
      one_packet,
    )
    ∷ []

one_packet-IsRound : IsRound 10 one_packet
one_packet-IsRound = record { sampled = refl; no_more = omega arith }

run_client_oneway-Logged_example :
    let (out, t) =
      run_client_oneway default_stats true (codes "10.0.0.1") 5000 10 limits 0 timed client in
    Sent none 12 7 (sent_samples (one_packet ∷ [])) out t
    × Logged log_buffer
        (oneway_entries (codes "10.0.0.1") 5000 7 (sent_samples (one_packet ∷ [])))
        t.csv_buffer
unfolding live_rounds check_time
run_client_oneway-Logged_example =
    run_client_oneway-Logged default_stats (codes "10.0.0.1") 5000 12 10 (omega arith) limits 0
      timed client log_buffer (one_packet-IsRound, tt) client-IsReadyToSend refl log_buffer-IsReady

-- The packet at the server, and its answer at the client.
abbrev received : Received
received = record {
  packet = 0 ∷ 0 ∷ 0 ∷ 7 ∷ 0 ∷ 0 ∷ 19 ∷ 136 ∷ 0 ∷ 0 ∷ 0 ∷ 0 ∷ [];
  src_ip = 5;
  src_ip_text = codes "10.0.0.1";
  src_port = 40000;
  hw_rx = zero_ts;
  ker_rx = zero_ts;
  app_rx = zero_ts;
}

abbrev answer : Answer
answer = record {
  packet = 0 ∷ 0 ∷ 0 ∷ 7 ∷ [];
  control = [];
  app_rx_ts = record { tv_sec = 101; tv_nsec = 0 };
  rx_tsc = 456;
  tx_clock = clock;
  rx_clock = clock;
}
