-- ===== src/Client/Log.antt =====
-- The CSV log of the packets that `oneway_rounds` of src/timestamp_client.c sends.
use trading_latency_benchmar.Prelude.{
  ℕ, suc, ◌%◌, ◌^◌, ◌≤◌, ◌<◌, ◌≡◌, refl, ◌∙◌, sym, ap, arith, Bool, true, false, none, some, List,
  [], ◌∷◌, ◌++◌, append-nil, length, take, Bytes, All, if◌then◌else◌, subst,
}
use trading_latency_benchmar.Stats.Entry.{StatsConfig}
use trading_latency_benchmar.Server.Correlation.{to_ns}
use trading_latency_benchmar.Csv.{CsvType, CsvRingBuffer, CsvEntry, csv_enqueue_fast}
use trading_latency_benchmar.Csv.Logged.{Logged, nil-Logged, cons-Logged, append-Logged}
use trading_latency_benchmar.Csv.Queue.{IsReady, csv_enqueue_fast-PushedTo}
use trading_latency_benchmar.Timing.{Limits, Instant}
use trading_latency_benchmar.Client.Sending.{
  Sample, ClientState, advance, fill_batch, batch_count_for, oneway_entry, record_oneway,
  record_all_oneway, SendOutcome, oneway_round, Round, run_rounds, oneway_rounds, run_client_oneway,
}
use trading_latency_benchmar.Client.Sending.Sent.{
  reached, taken, goes_on, sent_samples, IsRound, IsReadyToSend, Sent, oneway_round-IsStep,
  round-Sent, run_rounds-Sent,
}

-- The entries that are to be logged for packets with the numbers from `n` on: the time of sending is at
-- place 1.
pub oneway_entries : Bytes → ℕ → ℕ → List Sample → List CsvEntry
oneway_entries src_ip src_port n [] = []
oneway_entries src_ip src_port n (x ∷ xs) =
    record {
      seq_num = n;
      timestamp_ns = 0 ∷ to_ns x.app_tx_ts ∷ 0 ∷ 0 ∷ 0 ∷ 0 ∷ 0 ∷ 0 ∷ 0 ∷ 0 ∷ 0 ∷ 0 ∷ [];
      src_ip = take 15 src_ip;
      src_port = src_port % 2 ^ 16;
      csv_type = CsvType.client_main_oneway;
    }
    ∷ oneway_entries src_ip src_port (advance n 1) xs

module _ (config : StatsConfig) (src_ip : Bytes) (src_port : ℕ) where
  entries-append :
      (n : ℕ) (xs ys : List Sample)
      → n < 2 ^ 32
      → oneway_entries src_ip src_port n xs
          ++ oneway_entries src_ip src_port (advance n (length xs)) ys
        ≡ oneway_entries src_ip src_port n (xs ++ ys)
  unfolding oneway_entries
  entries-append n [] ys word = ap (λ m. oneway_entries src_ip src_port m ys) (omega arith)
  entries-append n (x ∷ xs) ys word =
      let next : advance n (suc (length xs)) ≡ advance (advance n 1) (length xs) = omega arith in
      ap (λ l. oneway_entry src_ip src_port n x ∷ l)
        (ap
            (λ m.
              oneway_entries src_ip src_port (advance n 1) xs
              ++ oneway_entries src_ip src_port m ys)
            next
          ∙ entries-append (advance n 1) xs ys (omega arith))

  record_all-Logged :
      (n : ℕ) (xs : List Sample) (s : ClientState) (b : CsvRingBuffer)
      → s.csv_buffer ≡ some b
      → IsReady b
      → Logged b
          (oneway_entries src_ip src_port n xs)
          (record_all_oneway config true src_ip src_port n xs s).csv_buffer
  unfolding record_all_oneway record_oneway oneway_entries
  record_all-Logged n [] s b on v = nil-Logged on v
  record_all-Logged n (x ∷ xs) s b on v =
      let pushed = csv_enqueue_fast-PushedTo v (oneway_entry src_ip src_port n x) in
      cons-Logged pushed (
        record_all-Logged (advance n 1) xs (record_oneway config true src_ip src_port n x s)
          (csv_enqueue_fast b (oneway_entry src_ip src_port n x)).1 (rw on refl) pushed.valid)

  round-Logged :
      (pps : ℕ) (xs : List Sample) (o : SendOutcome) (s : ClientState) (b : CsvRingBuffer)
      → s.csv_buffer ≡ some b
      → IsReady b
      → Logged b
          (oneway_entries src_ip src_port s.seq_num (take (taken o) xs))
          (oneway_round config true src_ip src_port pps xs o s).2.csv_buffer
  unfolding oneway_round oneway_entries
  round-Logged pps xs (SendOutcome.sent n) s b on v =
      record_all-Logged s.seq_num (take n xs)
        (record s {
          packet_buffers = fill_batch none s.seq_num (batch_count_for pps) s.packet_buffers;
        })
        b on v
  round-Logged pps xs SendOutcome.would_block s b on v = nil-Logged on v
  round-Logged pps xs SendOutcome.send_failed s b on v = nil-Logged on v

  -- A round and the rest of the run, if there is one.
  join-Logged :
      (go : Bool) (n : ℕ) (xs ys : List Sample) (out more : List Bytes) (t end : ClientState)
      {b : CsvRingBuffer}
      → n < 2 ^ 32
      → (first : Logged b (oneway_entries src_ip src_port n xs) t.csv_buffer)
      → Logged first.log (oneway_entries src_ip src_port (advance n (length xs)) ys) end.csv_buffer
      → let both : List Bytes × ClientState = if go then (out ++ more, end) else (out, t) in
        Logged b
          (oneway_entries src_ip src_port n (xs ++ (if go then ys else [])))
          both.1.csv_buffer
  join-Logged true n xs ys out more t end {b} word first rest =
      subst (λ l. Logged b l end.csv_buffer) (entries-append n xs ys word)
        (append-Logged first rest)
  join-Logged false n xs ys out more t end {b} word first rest =
      subst (λ l. Logged b (oneway_entries src_ip src_port n l) t.csv_buffer) (sym (append-nil xs))
        first

  module _ (size pps : ℕ) (long : 8 ≤ size) where
    run-Logged :
        (rounds : List Round) (s : ClientState) (b : CsvRingBuffer)
        → All (IsRound pps) rounds
        → IsReadyToSend size s
        → s.csv_buffer ≡ some b
        → IsReady b
        → Logged b
            (oneway_entries src_ip src_port s.seq_num (sent_samples rounds))
            (oneway_rounds config true src_ip src_port pps rounds s).1.csv_buffer
    unfolding oneway_rounds run_rounds sent_samples oneway_entries
    run-Logged [] s b ok v on ready = nil-Logged on ready
    run-Logged (r ∷ rounds) s b (one, ok) v on ready =
        let does = oneway_round-IsStep config true src_ip src_port pps in
        let first = round-Logged pps r.samples r.outcome s b on ready in
        let (sent_first, v') = round-Sent none size pps tt long does r s one v in
        let (go, out, t) = oneway_round config true src_ip src_port pps r.samples r.outcome s in
        let rest = run-Logged rounds t first.log ok v' first.has_log first.valid in
        let from =
          subst
            (λ m.
              Logged first.log (oneway_entries src_ip src_port m (sent_samples rounds))
                (oneway_rounds config true src_ip src_port pps rounds t).1.csv_buffer)
            sent_first.next rest in
        rw ((does r.samples r.outcome s v.word).continues) (
          join-Logged (goes_on r.outcome) s.seq_num (take (taken r.outcome) r.samples)
            (sent_samples rounds) out (oneway_rounds config true src_ip src_port pps rounds t).0 t
            (oneway_rounds config true src_ip src_port pps rounds t).1 v.word first from)

    -- From the loop of the one-way client to its end, over the rounds that the check of the time lets
    -- through, with the CSV log on and its buffer in order, packet buffers of the size, a sample for each
    -- packet of a batch, and a socket that takes no more packets than it is given: the packets that are
    -- sent have the size and carry the numbers that follow the current one, modulo 2^32, one for each
    -- sample that was used; and the log holds what it held, followed by one entry for each of them in
    -- order, with its number, the client's address and the time of sending, as many as find room.
    pub run_client_oneway-Logged :
        (limits : Limits) (cycles : ℕ) (timed : List (Instant × Round)) (s : ClientState)
        (b : CsvRingBuffer)
        → let rounds = reached limits cycles timed in
          All (IsRound pps) rounds
          → IsReadyToSend size s
          → s.csv_buffer ≡ some b
          → IsReady b
          → let (out, t) =
              run_client_oneway config true src_ip src_port pps limits cycles timed s in
            Sent none size s.seq_num (sent_samples rounds) out t
            × Logged b (oneway_entries src_ip src_port s.seq_num (sent_samples rounds)) t.csv_buffer
    unfolding run_client_oneway oneway_rounds
    run_client_oneway-Logged limits cycles timed s b ok v on ready =
        let rounds = reached limits cycles timed in
        (
          (run_rounds-Sent none size pps tt long
              (oneway_round-IsStep config true src_ip src_port pps) rounds s ok v).0,
          run-Logged rounds s b ok v on ready,
        )
