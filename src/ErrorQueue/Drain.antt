-- ===== src/ErrorQueue/Drain.antt =====
-- The loop at the end of src/timestamp_server.c and src/timestamp_client.c that drains the error queue.
use trading_latency_benchmar.Prelude.{
  ℕ, zero, suc, ◌%◌, ◌^◌, ◌≡◌, ◌≢◌, refl, ◌∙◌, ap, arith, Bool, true, false, Option, none, some,
  List, [], ◌∷◌, drop, ◌==◌, if◌then◌else◌, Bytes, get_or,
}
use trading_latency_benchmar.Stats.Entry.{StatsConfig}
use trading_latency_benchmar.Csv.{
  CsvRingBuffer, CsvEntry, create_csv_server_tx, create_csv_client_oneway_tx,
}
use trading_latency_benchmar.Server.Correlation.{Correlation, get_circular_index}
use trading_latency_benchmar.ErrorQueue.{
  Message, sequence_number, kernel_tx_ns, TxState, log_entry, server_tx_message, client_tx_message,
  Receipt, message, failed, process_rounds, process_tx_timestamps, drain,
}
use trading_latency_benchmar.ErrorQueue.Batch.{Logs, after_batch, drain_step}

-- The entry that a message leads to.
abbrev pub server_entry : Correlation → Message → CsvEntry
server_entry c m =
    let index = get_circular_index (sequence_number m) in
    create_csv_server_tx (sequence_number m) (get_or c.client_ips index [])
      (get_or c.client_ports index 0 % 2 ^ 16) (kernel_tx_ns m)

abbrev pub client_entry : Bytes → ℕ → Message → CsvEntry
client_entry src_ip src_port m =
    create_csv_client_oneway_tx (sequence_number m) src_ip (src_port % 2 ^ 16) (kernel_tx_ns m)

pub server-Logs :
    (config : StatsConfig) (c : Correlation)
    → Logs (server_tx_message config true (some c)) (server_entry c)
unfolding server_tx_message log_entry
server-Logs config c = record { one = λ m s b on. rw on refl; logged = λ m s b on. rw on refl }

pub client-Logs :
    (config : StatsConfig) (src_ip : Bytes) (src_port : ℕ)
    → Logs (client_tx_message config true src_ip src_port) (client_entry src_ip src_port)
unfolding client_tx_message log_entry
client-Logs config src_ip src_port = record {
  one = λ m s b on. rw on refl;
  logged = λ m s b on. rw on refl;
}

-- A handler that counts nothing without a log, as the two programs' handlers do.
pub record Silent (handle : Message → TxState → ℕ × TxState) : Type 0 where
  pub nothing : (m : Message) (s : TxState) → s.tx_csv_buffer ≡ none → (handle m s).0 ≡ 0
  pub still_off :
      (m : Message) (s : TxState) → s.tx_csv_buffer ≡ none → (handle m s).1.tx_csv_buffer ≡ none

pub client-Silent :
    (config : StatsConfig) (csv_enabled : Bool) (src_ip : Bytes) (src_port : ℕ)
    → Silent (client_tx_message config csv_enabled src_ip src_port)
unfolding client_tx_message log_entry
client-Silent config csv_enabled src_ip src_port = record {
  nothing = λ m s off. rw off refl;
  still_off = λ m s off. rw off refl;
}

server-Silent :
    (config : StatsConfig) (csv_enabled : Bool) (correlation : Option Correlation)
    → Silent (server_tx_message config csv_enabled correlation)
unfolding server_tx_message log_entry
server-Silent config csv_enabled none = record {
  nothing = λ m s off. refl;
  still_off = λ m s off. off;
}
server-Silent config csv_enabled (some c) = record {
  nothing = λ m s off. rw off refl;
  still_off = λ m s off. rw off refl;
}

module _ {handle : Message → TxState → ℕ × TxState} (silent : Silent handle) where
  rounds-silent :
      (rounds : ℕ) (queue : List Receipt) (s : TxState)
      → s.tx_csv_buffer ≡ none
      → ((process_rounds handle rounds queue s).0 ≡ 0)
        × ((process_rounds handle rounds queue s).1 ≡ drop rounds queue)
  unfolding process_rounds
  rounds-silent zero queue s off = (refl, refl)
  rounds-silent (suc n) [] s off = (refl, refl)
  rounds-silent (suc n) (failed ∷ queue) s off = rounds-silent n queue s off
  rounds-silent (suc n) (message m ∷ queue) s off =
      let (more, left) = rounds-silent n queue (handle m s).1 (silent.still_off m s off) in
      (omega (arith, silent.nothing m s off, more), left)

  module _ (config : StatsConfig) (on : config.enabled ≢ 0) (queue : List Receipt) (s : TxState)
      (off : s.tx_csv_buffer ≡ none) where
    process_lem : process_tx_timestamps handle config queue s ≡ process_rounds handle 256 queue s
    unfolding process_tx_timestamps
    process_lem =
        let test : config.enabled == 0 ≡ false = ground (arith, on) in
        ap
          (λ (o : Option CsvRingBuffer). elim o [
            | none ↦
                if config.enabled == 0 then (0, queue, s) else process_rounds handle 256 queue s
            | some buffer ↦ process_rounds handle 256 queue s
          ])
          off
        ∙ ap (λ (k : Bool). if k then (0, queue, s) else process_rounds handle 256 queue s) test

    drain-silent :
        (fuel : ℕ)
        → (t : TxState) × (drain handle (suc fuel) config queue s ≡ some (drop 256 queue, t))
    unfolding after_batch
    drain-silent fuel =
        let (none_counted, left) = rounds-silent 256 queue s off in
        let t = (process_tx_timestamps handle config queue s).2 in
        (
          t,
          drain_step handle fuel config queue s
              ∙ (ap (after_batch handle fuel config queue s)
                    (ap (λ r. r.0) process_lem ∙ none_counted)
                  ∙ ap (λ l. some (l, t)) (ap (λ r. r.1) process_lem ∙ left)),
        )

module _ (config : StatsConfig) (csv_enabled : Bool) (queue : List Receipt) (s : TxState)
    (fuel : ℕ) where
  -- With the statistics on but no TX log, the loop of either program ends after one batch, whatever the
  -- error queue holds: all but the first 256 receipts stay in the queue.
  pub drain-stats_only :
      (correlation : Option Correlation) (src_ip : Bytes) (src_port : ℕ)
      → config.enabled ≢ 0
      → s.tx_csv_buffer ≡ none
      → ((t : TxState) × (drain
              (server_tx_message config csv_enabled correlation)
              (suc fuel)
              config
              queue
              s
            ≡ some (drop 256 queue, t)))
        × ((t : TxState) × (drain
                (client_tx_message config csv_enabled src_ip src_port)
                (suc fuel)
                config
                queue
                s
              ≡ some (drop 256 queue, t)))
  drain-stats_only correlation src_ip src_port on off = (
    drain-silent (server-Silent config csv_enabled correlation) config on queue s off fuel,
    drain-silent (client-Silent config csv_enabled src_ip src_port) config on queue s off fuel,
  )
