-- ===== src/ErrorQueue/Thread.antt =====
-- `tx_timestamp_processing_thread` and `monitor_error_queue_health` of src/timestamp_common.c.
use trading_latency_benchmar.Prelude.{
  ℕ, ◌+◌, ◌%◌, ◌^◌, ◌<◌, ◌≡◌, ◌∙◌, sym, ap, arith, Bool, true, Option, none, some, List, [], ◌∷◌,
  ◌++◌, append_assoc, append-nil, length, take, drop, if◌then◌else◌, subst, Bytes,
}
use trading_latency_benchmar.Stats.Entry.{StatsConfig}
use trading_latency_benchmar.Csv.{CsvRingBuffer, CsvEntry}
use trading_latency_benchmar.Csv.Queue.{IsReady}
use trading_latency_benchmar.Server.Correlation.{Correlation}
use trading_latency_benchmar.ErrorQueue.{
  Message, TxState, server_tx_message, client_tx_message, Receipt, process_tx_timestamps, drain,
}
use trading_latency_benchmar.ErrorQueue.Batch.{
  Logs, Drained, drain-Drained, process_tx_timestamps-Processed, Processed-join, messages, IsFair,
  suffix-IsFair, whole_batch, length-batch,
}
use trading_latency_benchmar.ErrorQueue.Drain.{server_entry, client_entry, server-Logs, client-Logs}

-- What SO_ERROR says, and what a look at the error queue gives.
pub data SocketError : Type 0 where
  no_error no_buffers another : SocketError

pub data Peek : Type 0 where
  peeked queue_empty overflowed peek_failed : Peek

-- 0, -1 and -2.
pub data Health : Type 0 where
  healthy overflow socket_trouble : Health

-- The first argument is `none` if `getsockopt` fails.
unfoldable pub monitor_error_queue_health : Option SocketError → Peek → Health
monitor_error_queue_health (some SocketError.no_buffers) peek = overflow
monitor_error_queue_health (some SocketError.another) peek = socket_trouble
monitor_error_queue_health (some SocketError.no_error) Peek.overflowed = overflow
monitor_error_queue_health (some SocketError.no_error) Peek.peeked = healthy
monitor_error_queue_health (some SocketError.no_error) Peek.queue_empty = healthy
monitor_error_queue_health (some SocketError.no_error) Peek.peek_failed = healthy
monitor_error_queue_health none Peek.overflowed = overflow
monitor_error_queue_health none Peek.peeked = healthy
monitor_error_queue_health none Peek.queue_empty = healthy
monitor_error_queue_health none Peek.peek_failed = healthy

-- What a round of the thread finds: what has come into the error queue since the last, and the health.
pub record Poll : Type 0 where
  pub arrived : List Receipt
  pub socket_error : Option SocketError
  pub peek : Peek

-- What the thread leaves: the queue and the state, if its last loop ends, the count of
-- `g_packets_tx_timestamp_processed`, and how often each round found the queue.
pub record ThreadEnd : Type 0 where
  pub left : Option (List Receipt × TxState)
  pub tx_timestamp_processed : ℕ
  pub health : List Health

module _ (handle : Message → TxState → ℕ × TxState) (config : StatsConfig) where
  -- The loop over the rounds, as long as the thread runs, and the loop behind it, with fuel. The flag is
  -- `sockfd >= 0`.
  unfoldable pub tx_timestamp_processing_thread :
      Bool → ℕ → List Poll → List Receipt → TxState → ℕ → ThreadEnd
  unfolding process_tx_timestamps drain monitor_error_queue_health
  tx_timestamp_processing_thread open_socket fuel [] queue s count = record {
    left = if open_socket then drain handle fuel config queue s else some (queue, s);
    tx_timestamp_processed = count;
    health = [];
  }
  tx_timestamp_processing_thread open_socket fuel (poll ∷ polls) queue s count =
      let (processed, left, t) = process_tx_timestamps handle config (queue ++ poll.arrived) s in
      let rest =
        tx_timestamp_processing_thread open_socket fuel polls left t
          ((count + processed) % 2 ^ 64) in
      let idle =
        tx_timestamp_processing_thread open_socket fuel polls (queue ++ poll.arrived) s count in
      if open_socket
      then record rest {
        health = monitor_error_queue_health poll.socket_error poll.peek ∷ rest.health;
      }
      else idle

-- All that comes while the thread runs.
unfoldable pub all_arrived : List Poll → List Receipt
all_arrived [] = []
all_arrived (poll ∷ polls) = poll.arrived ++ all_arrived polls

module _ {handle : Message → TxState → ℕ × TxState} {entry : Message → CsvEntry}
    (h : Logs handle entry) (config : StatsConfig) where
  thread-Drained :
      (fuel : ℕ) (polls : List Poll) (queue : List Receipt) (s : TxState) (count : ℕ)
      (b : CsvRingBuffer)
      → length (messages (queue ++ all_arrived polls)) < fuel
      → IsFair (queue ++ all_arrived polls)
      → s.tx_csv_buffer ≡ some b
      → IsReady b
      → Drained entry
          (messages (queue ++ all_arrived polls))
          b
          (tx_timestamp_processing_thread handle config true fuel polls queue s count).left
  unfolding tx_timestamp_processing_thread all_arrived
  thread-Drained fuel [] queue s count b enough f on v =
      let same = append-nil queue in
      subst (λ all. Drained entry (messages all) b (drain handle fuel config queue s)) (sym same)
        (drain-Drained h config fuel queue s b
          (omega (arith, enough, ap (λ l. length (messages l)) same)) (subst IsFair same f) on v)
  thread-Drained fuel (poll ∷ polls) queue s count b enough f on v =
      let later = all_arrived polls in
      let now = queue ++ poll.arrived in
      let p = process_tx_timestamps-Processed h config now s b on v in
      let (processed, left, t) = process_tx_timestamps handle config now s in
      let next = (count + processed) % 2 ^ 64 in
      let batch = whole_batch now later in
      let split : queue ++ (poll.arrived ++ later) ≡ take 256 now ++ (drop 256 now ++ later) =
        sym (append_assoc queue poll.arrived later) ∙ batch in
      let left_over : left ≡ drop 256 now = p.left in
      let rest =
        thread-Drained fuel polls (drop 256 now) t next p.log.log
          (omega (
            arith,
            enough,
            length-batch now later,
            ap (λ l. length (messages l)) (sym (append_assoc queue poll.arrived later)),
          ))
          (suffix-IsFair (take 256 now) (drop 256 now ++ later) split f) p.log.has_log
          p.log.valid in
      record {
        end = rest.end;
        returned =
            ap (λ l. (tx_timestamp_processing_thread handle config true fuel polls l t next).left)
              left_over
            ∙ rest.returned;
        log = Processed-join entry now (drop 256 now ++ later) p split rest.log;
      }

module _ (config : StatsConfig) (polls : List Poll) (queue : List Receipt) (s : TxState)
    {b : CsvRingBuffer} (on : s.tx_csv_buffer ≡ some b) (v : IsReady b) where
  -- With an open socket, the TX log on and in order, and the server's correlation arrays there: if of any 256
  -- receipts in a row one is a message and no error of `recvmsg`, the thread of either program ends when it
  -- is told to, with fuel of more than the number of messages, and then nothing that came while it ran is left
  -- in the error queue, and each message has been offered to the log, in their order, whatever the health of
  -- the queue.
  pub tx_timestamp_processing_thread-Drained :
      (c : Correlation) (src_ip : Bytes) (src_port fuel count : ℕ)
      → length (messages (queue ++ all_arrived polls)) < fuel
      → IsFair (queue ++ all_arrived polls)
      → Drained
          (server_entry c)
          (messages (queue ++ all_arrived polls))
          b
          (tx_timestamp_processing_thread
            (server_tx_message config true (some c))
            config
            true
            fuel
            polls
            queue
            s
            count).left
        × Drained
            (client_entry src_ip src_port)
            (messages (queue ++ all_arrived polls))
            b
            (tx_timestamp_processing_thread
              (client_tx_message config true src_ip src_port)
              config
              true
              fuel
              polls
              queue
              s
              count).left
  tx_timestamp_processing_thread-Drained c src_ip src_port fuel count enough f = (
    thread-Drained (server-Logs config c) config fuel polls queue s count b enough f on v,
    thread-Drained (client-Logs config src_ip src_port) config fuel polls queue s count b enough f
        on v,
  )
