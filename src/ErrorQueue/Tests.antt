-- ===== src/ErrorQueue/Tests.antt =====
-- Concrete runs over an error queue of two messages, with a log of four places.
use trading_latency_benchmar.Prelude.{
  ℕ, ◌≡◌, refl, arith, true, Option, none, some, List, [], ◌∷◌, drop, codes,
}
use trading_latency_benchmar.Stats.Entry.{StatsConfig}
use trading_latency_benchmar.Csv.{CsvRingBuffer, CsvEntry, create_csv_server_tx}
use trading_latency_benchmar.Csv.Queue.{IsReady}
use trading_latency_benchmar.Server.Correlation.{Timespec, empty_correlation}
use trading_latency_benchmar.ErrorQueue.{
  Control, Message, TxState, Receipt, message, failed, drain, server_tx_message, client_tx_message,
}
use trading_latency_benchmar.ErrorQueue.Batch.{Drained, short-IsFair}
use trading_latency_benchmar.ErrorQueue.Drain.{server_entry, client_entry, drain-stats_only}
use trading_latency_benchmar.ErrorQueue.Thread.{
  SocketError, Peek, Poll, all_arrived, tx_timestamp_processing_thread,
  tx_timestamp_processing_thread-Drained,
}

abbrev config : StatsConfig
config = record { enabled = 1; buffer_size = 100000; bin_width_us = 1; max_bins = 100 }

abbrev entry : ℕ → CsvEntry
entry seq = create_csv_server_tx seq [] 6000 0

abbrev buffer : CsvRingBuffer
buffer = record {
  entries = entry 1 ∷ entry 2 ∷ entry 3 ∷ entry 4 ∷ [];
  head = 0;
  tail = 3;
  size_mask = 3;
}

buffer-IsReady : IsReady buffer
buffer-IsReady = record {
  ones = record { width = 2; wide = omega arith; ones = refl };
  sized = refl;
  head_in = omega arith;
  tail_in = omega arith;
}

abbrev at_ns : ℕ → Timespec
at_ns n = record { tv_sec = 1; tv_nsec = n }

-- A packet that was sent back whole, with its number at the start.
abbrev echo : ℕ → Message
echo seq = record {
  packet_data = 0 ∷ 0 ∷ 0 ∷ seq ∷ [];
  control = Control.timestamping (at_ns seq) (at_ns 0) (at_ns 0) ∷ Control.recverr 99 ∷ [];
}

abbrev state : Option CsvRingBuffer → TxState
state log = record { tx_csv_buffer = log; collector = none }

-- A round at which two packets have come behind an error, and one of trouble without a packet.
abbrev rounds : List Poll
rounds =
    record {
      arrived = failed ∷ message (echo 7) ∷ message (echo 8) ∷ [];
      socket_error = some SocketError.no_error;
      peek = Peek.peeked;
    }
    ∷ record { arrived = []; socket_error = some SocketError.no_buffers; peek = Peek.overflowed }
    ∷ []

tx_timestamp_processing_thread-Drained_example :
    Drained
      (server_entry empty_correlation)
      (echo 6 ∷ echo 7 ∷ echo 8 ∷ [])
      buffer
      (tx_timestamp_processing_thread
        (server_tx_message config true (some empty_correlation))
        config
        true
        4
        rounds
        (message (echo 6) ∷ [])
        (state (some buffer))
        0).left
    × Drained
        (client_entry (codes "10.0.0.1") 6000)
        (echo 6 ∷ echo 7 ∷ echo 8 ∷ [])
        buffer
        (tx_timestamp_processing_thread
          (client_tx_message config true (codes "10.0.0.1") 6000)
          config
          true
          4
          rounds
          (message (echo 6) ∷ [])
          (state (some buffer))
          0).left
unfolding all_arrived
tx_timestamp_processing_thread-Drained_example =
    tx_timestamp_processing_thread-Drained config rounds (message (echo 6) ∷ [])
      (state (some buffer)) refl buffer-IsReady empty_correlation (codes "10.0.0.1") 6000 4 0
      (omega arith) (short-IsFair (message (echo 6) ∷ all_arrived rounds) (omega arith))

abbrev receipts : List Receipt
receipts = message (echo 7) ∷ failed ∷ message (echo 8) ∷ []

drain-stats_only_example :
    ((t : TxState) × (drain
          (server_tx_message config true (some empty_correlation))
          3
          config
          receipts
          (state none)
        ≡ some (drop 256 receipts, t)))
    × ((t : TxState) × (drain
            (client_tx_message config true (codes "10.0.0.1") 6000)
            3
            config
            receipts
            (state none)
          ≡ some (drop 256 receipts, t)))
drain-stats_only_example =
    drain-stats_only config true receipts (state none) 2 (some empty_correlation) (codes "10.0.0.1")
      6000 (λ e. omega arith) refl
