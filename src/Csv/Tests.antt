-- ===== src/Csv/Tests.antt =====
-- Concrete runs of the CSV log: a ring buffer of four places that has gone round once.
use trading_latency_benchmar.Prelude.{
  ℕ, ◌+◌, ◌≡◌, refl, arith, some, List, [], ◌∷◌, ◌++◌, codes, true, ◌<◌, replicate,
}
use trading_latency_benchmar.Csv.{
  CsvEntry, CsvType, CsvRingBuffer, csv_enqueue_fast, csv_dequeue_batch, no_entry,
  create_csv_client_oneway_main, get_csv_header,
}
use trading_latency_benchmar.Csv.Queue.{IsReady, enqueue, dequeue, run_calls, Ran, run_calls-Ran}
use trading_latency_benchmar.Csv.Writer.{Writer, Creation, csv_buffer_create, write_batch}
use trading_latency_benchmar.Csv.Writer.Length.{IsPrintable}
use trading_latency_benchmar.Csv.Writer.Lines.{lines, Event, offer, write_round, run}
use trading_latency_benchmar.Csv.Writer.Complete.{csv_writer_complete}
use trading_latency_benchmar.Csv.Header.{file_type_of, detect_file_type-get_csv_header}
use trading_latency_benchmar.Csv.Text.{print_timestamp, parse_timestamp_ns-print_timestamp}
use trading_latency_benchmar.Join.Deltas.{parse_timestamp_ns}
use trading_latency_benchmar.Join.Records.{detect_file_type}

abbrev entry : ℕ → CsvEntry
entry seq = create_csv_client_oneway_main seq (codes "10.0.0.1") 5000 (1000 + seq)

abbrev buffer : CsvRingBuffer
buffer = record {
  entries = entry 5 ∷ entry 2 ∷ entry 3 ∷ entry 4 ∷ [];
  head = 1;
  tail = 3;
  size_mask = 3;
}

buffer-IsReady : IsReady buffer
buffer-IsReady = record {
  ones = record { width = 2; wide = omega arith; ones = refl };
  sized = refl;
  head_in = omega arith;
  tail_in = omega arith;
}

run_calls-Ran_example :
    Ran buffer
      (run_calls
        (enqueue (entry 6) ∷ enqueue (entry 7) ∷ dequeue 2 ∷ enqueue (entry 8) ∷ [])
        buffer).0
      (run_calls
        (enqueue (entry 6) ∷ enqueue (entry 7) ∷ dequeue 2 ∷ enqueue (entry 8) ∷ [])
        buffer).1
      (run_calls
        (enqueue (entry 6) ∷ enqueue (entry 7) ∷ dequeue 2 ∷ enqueue (entry 8) ∷ [])
        buffer).2
run_calls-Ran_example =
    run_calls-Ran (enqueue (entry 6) ∷ enqueue (entry 7) ∷ dequeue 2 ∷ enqueue (entry 8) ∷ [])
      buffer-IsReady

detect_file_type-get_csv_header_example :
    detect_file_type
      (some (get_csv_header CsvType.server_tx ∷ codes "10.0.0.1,5000,3,2.000000003\n" ∷ []))
    ≡ file_type_of CsvType.server_tx
detect_file_type-get_csv_header_example =
    detect_file_type-get_csv_header CsvType.server_tx (codes "10.0.0.1,5000,3,2.000000003\n" ∷ [])

parse_timestamp_ns-print_timestamp_example :
    parse_timestamp_ns (print_timestamp 1700000000000000042) ≡ 1700000000000000042
parse_timestamp_ns-print_timestamp_example =
    parse_timestamp_ns-print_timestamp 1700000000000000042 (omega arith)

-- A log of four places and batches of two entries is created, and three entries go through it.
abbrev system : Creation
system = record {
  control = true;
  entries = true;
  text = true;
  file = true;
  header = true;
  thread = true;
}

abbrev writer : Writer
writer = record {
  buffer = record { entries = replicate 4 no_entry; head = 0; tail = 0; size_mask = 3 };
  batch_size = 2;
  write_buffer_size = 512;
  csv_type = CsvType.client_main_oneway;
  file = get_csv_header CsvType.client_main_oneway;
}

abbrev events : List Event
events = offer (entry 5) ∷ offer (entry 6) ∷ write_round ∷ offer (entry 7) ∷ []

entry-IsPrintable : (seq : ℕ) → seq < 1000 → IsPrintable (entry seq)
entry-IsPrintable seq small = record {
  short_ip = omega arith;
  port_word = omega arith;
  seq_word = omega arith;
  timestamp_words = (
    omega arith,
    (
      omega arith,
      (
        omega arith,
        (
          omega arith,
          (
            omega arith,
            (
              omega arith,
              (
                omega arith,
                (omega arith, (omega arith, (omega arith, (omega arith, (omega arith, tt))))),
              ),
            ),
          ),
        ),
      ),
    ),
  );
}

csv_writer_complete_example :
    (write_batch true (run events writer).1).file
    ≡ get_csv_header CsvType.client_main_oneway
      ++ lines CsvType.client_main_oneway (run events writer).0
unfolding csv_buffer_create run csv_enqueue_fast write_batch csv_dequeue_batch
csv_writer_complete_example =
    csv_writer_complete system 4 2 CsvType.client_main_oneway writer events (omega arith)
      (omega arith) (omega arith) refl refl
      (
        entry-IsPrintable 5 (omega arith),
        (entry-IsPrintable 6 (omega arith), (tt, (entry-IsPrintable 7 (omega arith), tt))),
      )
      (omega arith)
