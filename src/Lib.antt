-- ===== src/Lib.antt =====
-- The timestamping programs of the trading latency benchmark (ec2_timestamping_programs): a client and
-- a server send and receive packets, take timestamps of each at the application, the kernel and the
-- hardware, keep them in a ring buffer, and report statistics of their differences.
--
-- Parts and files
--
-- Prelude: names and lemmas that the parts share. Words has the facts on masks and powers of two.
-- Ring: index arithmetic of the ring buffers, `(i + 1) & size_mask` and `(head - tail) & size_mask`
--   over uint32_t, and the entries from the tail to the head as a list (Contents). Ring/Size is
--   `next_power_of_2` of ec2_timestamping_programs/include/timestamp_common.h.
-- Sort: `qsort` of the C library, as a sort by a comparison function; Sort/Laws has its laws.
-- Stats: the statistics part of ec2_timestamping_programs/include/timestamp_common.h and
--   ec2_timestamping_programs/src/timestamp_common.c.
--   Stats/Entry: `stats_entry_t`, `stats_config_t` and the modes.
--   Stats/Collector: `stats_collector_t`, `create_stats_collector`, `stats_enqueue`, the counts, the
--   three `update_stats_buffer_with_...` functions and `create_minimal_stats_entry`.
--   Stats/Delta: `ALL_DELTAS` and the deltas of each mode.
--   Stats/Percentile: `delta_analysis_t` and the `exact_percentiles_...` functions.
--   Stats/Analysis: `stats_analysis_result_t`, its configuration, allocation, validation and clean-up,
--   and `process_buffer_for_analysis` with `process_entry_for_delta`.
--
-- Join: ec2_timestamping_programs/src/timestamp_csvjoin.c, which joins the CSV files of both programs.
--   Join/Line: `parse_csv_line` and the checks of a line's fields.
--   Join/Sequences: the sequence numbers of each file, those common to all, and the record table with
--   its binary search.
--   Join/Records: `detect_file_type` and `populate_timestamps_from_file`.
--   Join/Deltas: `parse_timestamp_ns` and the deltas of a record.
--   Join/Files: `validate_file_combination`. Join/Output: the columns of the joined file.
--   Join/Process: its lines, and `process_join_operation`. Join/Arguments: `parse_arguments` and `main`.
--
-- Csv: the CSV log of include/timestamp_common.h and src/timestamp_common.c of ec2_timestamping_programs:
--   `csv_entry_t`, the `create_csv_...` helpers, `get_csv_header`, and the ring buffer with
--   `csv_enqueue_fast` (the network thread) and `csv_dequeue_batch` (the writer thread).
--   Csv/Queue has runs of both threads' calls, Csv/Header the headers beside those of the join,
--   Csv/Text the timestamps as `csv_format_batch` prints them. Csv/Writer has `csv_buffer_create`,
--   `csv_format_batch` and the rounds of `csv_writer_thread`, with the file as its text.
--
-- Server: ec2_timestamping_programs/src/timestamp_server.c. Server/Requests: the queue of return packets
--   between the RX and the TX thread. Server/Correlation: the arrays that keep a packet's RX timestamps and
--   its client under the sequence number modulo 50000. Server/Sender: what `run_server_roundtrip` does with
--   a received packet, and a round of `tx_thread_func`; Server/Sender/Rounds has runs of both threads.
--   Server/Oneway: the loop of `run_server_oneway`. Server/Roundtrip: that of `run_server_roundtrip`.
-- Client: ec2_timestamping_programs/src/timestamp_client.c. Client/Arrays: its correlation arrays, and
--   `tsc_to_timespec` of src/timestamp_common.c. Client/Sending: the packets and the sending loops of
--   `run_client_oneway` and `run_client_roundtrip`. Client itself: `rx_thread_func`. Client/Answered
--   follows a packet to the server and back.
-- Timing: the check of the time at the head of the loops of the client and of the server.
-- ErrorQueue: `process_tx_timestamps_in_main_thread` of src/timestamp_server.c and src/timestamp_client.c,
--   and the loop that drains the error queue. ErrorQueue/Thread: `tx_timestamp_processing_thread` of
--   src/timestamp_common.c, which runs them.
-- Reporting: the report of packets per second of src/timestamp_common.c.
-- Options: the options of the server, `main` of src/timestamp_server.c (Options/Main), those of the client,
--   `main` of src/timestamp_client.c (Options/Client), and `parse_stats_argument`, which both have. Logging: src/timestamp_logging.c with `parse_log_level`
--   and `parse_log_components` of both programs.
-- Filter: the packet filter, af_xdp_zero_copy_perf_benchmark/unicast_filter.c.
--
-- The receiving and sending code creates an entry for each packet and completes it, found by its
-- sequence number, as further timestamps arrive; when the statistics are shown, the analysis goes once
-- through the entries that the collector holds.
--
-- How the code is modelled
--
-- A structure is a record, a pointer that may be NULL an Option, an array a List, and a call that
-- changes a structure a function to the changed one. Unsigned integers are natural numbers with their
-- wrap-around written out. A call takes effect at once; the CSV ring buffer, which two threads share, is
-- under any order of calls, and the server's queue under any order of the steps of its two threads, which
-- are the two parts of the work on a received packet and a round of sending. How the memory model orders
-- their loads and stores is left out. Which allocations succeed is an argument. Differences of timestamps are kept in nanoseconds and
-- percentiles in hundredths of a nanosecond, where the code has doubles of microseconds, so that the
-- interpolation between two values needs no rounding. A file is the list of the lines that `fgets`
-- gives, none if it cannot be opened.
--
-- Bounds: a printed uint64_t has at most 20 digits; `next_power_of_2` doubles at most 33 times, as a
-- uint32_t has 32 bits; the binary search has a round for each record, and each round leaves fewer; the
-- loop that drains an error queue ends with a round more than there are messages, as each round but the
-- last takes some.
--
-- Not modelled: output to the console, threads, sockets, signals and clocks, which are calls of the
-- operating system; the set-up of sockets and buffers before the main loops, and the clean-up after them;
-- the division of floating point numbers in `tsc_to_timespec`, which is an argument; the programs in
-- other languages.
pub mod Prelude
pub mod Ring
pub mod Sort
pub mod Timing
pub mod Reporting
pub mod Stats
pub mod Join
pub mod Csv
pub mod Filter
pub mod Server
pub mod Client
pub mod ErrorQueue
pub mod Options
pub mod Logging
