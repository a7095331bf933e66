-- ===== src/ErrorQueue/Batch.antt =====
-- What `process_tx_timestamps_in_main_thread` and the loop that drains the error queue leave, in
-- src/timestamp_server.c and src/timestamp_client.c.
use native.Mathlib.Decide.{dec_lt, ℕ_discrete}
use trading_latency_benchmar.Prelude.{
  ℕ, zero, suc, ◌+◌, ◌-◌, ◌<◌, ◌≡◌, ◌≢◌, refl, append_assoc, append-nil, length-append, length-take,
  ◌∙◌, sym, ap, arith, Option, none, some, List, [], ◌∷◌, ◌++◌, length, take, drop,
  take-append-drop, length-drop, map, ◌==◌, if◌then◌else◌, subst,
}
use trading_latency_benchmar.Stats.Entry.{StatsConfig}
use trading_latency_benchmar.Csv.{CsvRingBuffer, CsvEntry, csv_enqueue_fast}
use trading_latency_benchmar.Csv.Logged.{Logged, nil-Logged, cons-Logged, append-Logged}
use trading_latency_benchmar.Csv.Queue.{IsReady, csv_enqueue_fast-PushedTo}
use trading_latency_benchmar.ErrorQueue.{
  Message, TxState, Receipt, message, failed, process_rounds, process_tx_timestamps, drain,
}

-- The messages among what `recvmsg` gives.
abbrev pub messages : List Receipt → List Message
messages [] = []
messages (message m ∷ queue) = m ∷ messages queue
messages (failed ∷ queue) = messages queue

-- A handler that logs one entry for each message, as the two programs' handlers do with the log on.
pub record Logs (handle : Message → TxState → ℕ × TxState) (entry : Message → CsvEntry)
    : Type 0 where
  pub one :
      (m : Message) (s : TxState) (b : CsvRingBuffer)
      → s.tx_csv_buffer ≡ some b
      → (handle m s).0 ≡ 1
  pub logged :
      (m : Message) (s : TxState) (b : CsvRingBuffer)
      → s.tx_csv_buffer ≡ some b
      → (handle m s).1.tx_csv_buffer ≡ some (csv_enqueue_fast b (entry m)).1

-- What some rounds leave.
pub record Processed (entry : Message → CsvEntry) (rounds : ℕ) (queue : List Receipt)
    (b : CsvRingBuffer) (result : ℕ × List Receipt × TxState) : Type 0 where
  pub counted : result.0 ≡ length (messages (take rounds queue))
  pub left : result.1 ≡ drop rounds queue
  pub log : Logged b (map entry (messages (take rounds queue))) result.2.tx_csv_buffer

module _ {handle : Message → TxState → ℕ × TxState} {entry : Message → CsvEntry}
    (h : Logs handle entry) where
  process_rounds-Processed :
      (rounds : ℕ) (queue : List Receipt) (s : TxState) (b : CsvRingBuffer)
      → s.tx_csv_buffer ≡ some b
      → IsReady b
      → Processed entry rounds queue b (process_rounds handle rounds queue s)
  unfolding process_rounds
  process_rounds-Processed zero queue s b on v = record {
    counted = refl;
    left = refl;
    log = nil-Logged on v;
  }
  process_rounds-Processed (suc n) [] s b on v = record {
    counted = refl;
    left = refl;
    log = nil-Logged on v;
  }
  process_rounds-Processed (suc n) (failed ∷ queue) s b on v =
      let r = process_rounds-Processed n queue s b on v in
      record { counted = r.counted; left = r.left; log = r.log }
  process_rounds-Processed (suc n) (message m ∷ queue) s b on v =
      let pushed = csv_enqueue_fast-PushedTo v (entry m) in
      let r =
        process_rounds-Processed n queue (handle m s).1 (csv_enqueue_fast b (entry m)).1
          (h.logged m s b on) pushed.valid in
      record {
        counted = omega (arith, h.one m s b on, r.counted);
        left = r.left;
        log = cons-Logged pushed r.log;
      }

  pub process_tx_timestamps-Processed :
      (config : StatsConfig) (queue : List Receipt) (s : TxState) (b : CsvRingBuffer)
      → s.tx_csv_buffer ≡ some b
      → IsReady b
      → Processed entry 256 queue b (process_tx_timestamps handle config queue s)
  unfolding process_tx_timestamps
  process_tx_timestamps-Processed config queue s b on v =
      let same : process_tx_timestamps handle config queue s ≡ process_rounds handle 256 queue s =
        ap
          (λ (o : Option CsvRingBuffer). elim o [
            | none ↦
                if config.enabled == 0 then (0, queue, s) else process_rounds handle 256 queue s
            | some buffer ↦ process_rounds handle 256 queue s
          ])
          on in
      subst (Processed entry 256 queue b) (sym same) (process_rounds-Processed 256 queue s b on v)

module _ (handle : Message → TxState → ℕ × TxState) (fuel : ℕ) (config : StatsConfig)
    (queue : List Receipt) (s : TxState) where
  unfoldable pub after_batch : ℕ → Option (List Receipt × TxState)
  after_batch processed =
      let (n, left, t) = process_tx_timestamps handle config queue s in
      elim processed [ zero ↦ some (left, t) | suc k ↦ drain handle fuel config left t ]

  pub drain_step :
      drain handle (suc fuel) config queue s
      ≡ after_batch (process_tx_timestamps handle config queue s).0
  unfolding drain after_batch
  drain_step = refl

pub map-append :
    {B : Type 0} (f : Message → B) (xs ys : List Message) → map f (xs ++ ys) ≡ map f xs ++ map f ys
map-append f [] ys = refl
map-append f (x ∷ xs) ys = ap (λ r. f x ∷ r) (map-append f xs ys)

messages-append : (xs ys : List Receipt) → messages (xs ++ ys) ≡ messages xs ++ messages ys
messages-append [] ys = refl
messages-append (message m ∷ xs) ys = ap (λ l. m ∷ l) (messages-append xs ys)
messages-append (failed ∷ xs) ys = messages-append xs ys

-- Of any 256 receipts in a row one is a message.
pub record IsFair (queue : List Receipt) : Type 0 where
  pub fair :
      (xs ys zs : List Receipt) → queue ≡ xs ++ (ys ++ zs) → length ys ≡ 256 → messages ys ≢ []

pub short-IsFair : (queue : List Receipt) → length queue < 256 → IsFair queue
short-IsFair queue short = record {
  fair = λ xs ys zs split full none_there. absurd (
      omega
        (arith, short, full, ap length split, length-append xs (ys ++ zs), length-append ys zs));
}

pub suffix-IsFair :
    {queue : List Receipt} (before rest : List Receipt)
    → queue ≡ before ++ rest
    → IsFair queue
    → IsFair rest
suffix-IsFair before rest split f = record {
  fair = λ xs ys zs e.
      f.fair (before ++ xs) ys zs
        (split ∙ ap (λ l. before ++ l) e ∙ sym (append_assoc before xs (ys ++ zs)));
}

nil-of : {A : Type 0} (xs : List A) → length xs ≡ 0 → xs ≡ []
nil-of [] e = refl
nil-of (x ∷ xs) e = absurd (omega (arith, e))

-- A batch without a message is the end of a queue.
last_batch :
    (queue : List Receipt)
    → IsFair queue
    → length (messages (take 256 queue)) ≡ 0
    → length queue < 256
last_batch queue f none_there = elim (dec_lt (length queue) 256) [
  | yes short ↦ short
  | no long ↦ absurd (
      f.fair [] (take 256 queue) (drop 256 queue) (sym (take-append-drop 256 queue))
        (omega (arith, long, length-take 256 queue))
        (nil-of (messages (take 256 queue)) none_there))
]

-- A batch, and what is logged behind it.
pub Processed-join :
    (entry : Message → CsvEntry) (queue rest : List Receipt) {all : List Receipt}
    {b : CsvRingBuffer} {result : ℕ × List Receipt × TxState} {o : Option CsvRingBuffer}
    (p : Processed entry 256 queue b result)
    → all ≡ take 256 queue ++ rest
    → Logged p.log.log (map entry (messages rest)) o
    → Logged b (map entry (messages all)) o
Processed-join entry queue rest {b = b} {o = o} p split l =
    subst (λ es. Logged b es o)
      (sym (map-append entry (messages (take 256 queue)) (messages rest))
        ∙ ap (map entry) (sym (messages-append (take 256 queue) rest) ∙ ap messages (sym split)))
      (append-Logged p.log l)

-- What the drain leaves: an empty queue, and an entry for each message.
pub record Drained (entry : Message → CsvEntry) (ms : List Message) (b : CsvRingBuffer)
    (result : Option (List Receipt × TxState)) : Type 0 where
  pub end : TxState
  pub returned : result ≡ some ([], end)
  pub log : Logged b (map entry ms) end.tx_csv_buffer

-- What comes behind the first batch.
pub whole_batch :
    (queue later : List Receipt) → queue ++ later ≡ take 256 queue ++ (drop 256 queue ++ later)
whole_batch queue later =
    ap (λ l. l ++ later) (sym (take-append-drop 256 queue))
    ∙ append_assoc (take 256 queue) (drop 256 queue) later

pub length-batch :
    (queue later : List Receipt)
    → length (messages (queue ++ later))
      ≡ length (messages (take 256 queue)) + length (messages (drop 256 queue ++ later))
length-batch queue later =
    ap (λ l. length (messages l)) (whole_batch queue later)
    ∙ (ap length (messages-append (take 256 queue) (drop 256 queue ++ later))
        ∙ length-append (messages (take 256 queue)) (messages (drop 256 queue ++ later)))

module _ {handle : Message → TxState → ℕ × TxState} {entry : Message → CsvEntry}
    (h : Logs handle entry) (config : StatsConfig) where
  pub drain-Drained :
      (fuel : ℕ) (queue : List Receipt) (s : TxState) (b : CsvRingBuffer)
      → length (messages queue) < fuel
      → IsFair queue
      → s.tx_csv_buffer ≡ some b
      → IsReady b
      → Drained entry (messages queue) b (drain handle fuel config queue s)
  unfolding after_batch
  drain-Drained zero queue s b enough f on v = absurd (omega arith)
  drain-Drained (suc fuel) queue s b enough f on v =
      let p = process_tx_timestamps-Processed h config queue s b on v in
      let (processed, left, t) = process_tx_timestamps handle config queue s in
      let split = sym (take-append-drop 256 queue) in
      let left_over : left ≡ drop 256 queue = p.left in
      elim (ℕ_discrete (length (messages (take 256 queue))) 0) [
        | yes none_there ↦
            let short = last_batch queue f none_there in
            let nothing : drop 256 queue ≡ [] =
              nil-of (drop 256 queue) (omega (arith, short, length-drop 256 queue)) in
            record {
              end = t;
              returned =
                  drain_step handle fuel config queue s
                  ∙ (ap (after_batch handle fuel config queue s) (p.counted ∙ none_there)
                      ∙ ap (λ l. some (l, t)) (left_over ∙ nothing));
              log =
                  subst (λ l. Logged b (map entry (messages l)) t.tx_csv_buffer)
                    (sym (append-nil (take 256 queue))
                      ∙ (ap (λ l. take 256 queue ++ l) (sym nothing) ∙ sym split))
                    p.log;
            }
        | no some_there ↦
            let n = length (messages (take 256 queue)) - 1 in
            let more : processed ≡ suc n = p.counted ∙ omega (arith, some_there) in
            let rest =
              drain-Drained fuel (drop 256 queue) t p.log.log
                (omega (
                  arith,
                  enough,
                  some_there,
                  ap (λ l. length (messages l)) split,
                  ap length (messages-append (take 256 queue) (drop 256 queue)),
                  length-append (messages (take 256 queue)) (messages (drop 256 queue)),
                ))
                (suffix-IsFair (take 256 queue) (drop 256 queue) split f) p.log.has_log
                p.log.valid in
            record {
              end = rest.end;
              returned =
                  drain_step handle fuel config queue s
                  ∙ (ap (after_batch handle fuel config queue s) more
                      ∙ (ap (λ l. drain handle fuel config l t) left_over ∙ rest.returned));
              log = Processed-join entry queue (drop 256 queue) p split rest.log;
            }
      ]
