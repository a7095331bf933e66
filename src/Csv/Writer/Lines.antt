-- ===== src/Csv/Writer/Lines.antt =====
-- What the writer thread of src/timestamp_common.c leaves in the file.
use trading_latency_benchmar.Prelude.{
  ℕ, zero, suc, ◌+◌, ◌-◌, ◌*◌, ◌^◌, ◌≤◌, ◌<◌, ◌≡◌, refl, ◌∙◌, sym, ap, ap₂, arith, Bool, true, List,
  [], ◌∷◌, ◌++◌, append_assoc, append-nil, length, length-take, take, take-ge, drop,
  take-append-drop, ltb, subst, if◌then◌else◌, Bytes, All, All-append, Bool-cases, inl, inr,
}
use trading_latency_benchmar.Csv.{CsvType, CsvEntry, Pushed, csv_enqueue_fast}
use trading_latency_benchmar.Csv.Queue.{
  IsReady, queued, joined, csv_enqueue_fast-PushedTo, csv_dequeue_batch-Popped, has_room,
}
use trading_latency_benchmar.Csv.Writer.{
  print_line, format_from, csv_format_batch, Writer, write_batch,
}
use trading_latency_benchmar.Csv.Writer.Length.{IsPrintable, length-print_line}

-- The lines of some entries.
pub lines : CsvType → List CsvEntry → Bytes
lines csv_type [] = []
lines csv_type (e ∷ es) = print_line csv_type e ++ lines csv_type es

lines-append : (t : CsvType) (xs ys : List CsvEntry) → lines t (xs ++ ys) ≡ lines t xs ++ lines t ys
unfolding lines
lines-append t [] ys = refl
lines-append t (x ∷ xs) ys =
    ap (λ r. print_line t x ++ r) (lines-append t xs ys)
    ∙ sym (append_assoc (print_line t x) (lines t xs) (lines t ys))

-- After `k` lines there is room for another as long as there are at most `batch_size`.
format_from-lines :
    (batch_size : ℕ) (t : CsvType) (k offset : ℕ) (es : List CsvEntry)
    → 2 ≤ batch_size
    → k + length es ≤ batch_size
    → offset ≤ 255 * k
    → All IsPrintable es
    → format_from (batch_size * 256) t offset es ≡ lines t es
unfolding format_from lines
format_from-lines b t k offset [] enough fits near p = refl
format_from-lines b t k offset (e ∷ es) enough fits near (p, ps) =
    let line = print_line t e in
    let short = length-print_line t e p in
    let room : ltb offset (b * 256 - 256) ≡ true = ground arith in
    rw room (
      ap₂ ◌++◌ (take-ge (b * 256 - offset - 1) line (omega (arith, short))) (
        format_from-lines b t (k + 1) (offset + length line) es enough (omega arith)
          (omega (arith, short)) ps))

-- A batch of at most `batch_size` entries is formatted whole, one line for each entry.
csv_format_batch-lines :
    (batch_size : ℕ) (t : CsvType) (es : List CsvEntry)
    → 2 ≤ batch_size
    → length es ≤ batch_size
    → All IsPrintable es
    → csv_format_batch es (batch_size * 256) t ≡ lines t es
unfolding csv_format_batch
csv_format_batch-lines b t es enough fits p =
    format_from-lines b t 0 0 es enough (omega arith) (omega arith) p

All-take : (n : ℕ) (es : List CsvEntry) → All IsPrintable es → All IsPrintable (take n es)
All-take zero es p = tt
All-take (suc n) [] p = tt
All-take (suc n) (e ∷ es) (p, ps) = (p, All-take n es ps)

All-drop : (n : ℕ) (es : List CsvEntry) → All IsPrintable es → All IsPrintable (drop n es)
All-drop zero es p = p
All-drop (suc n) [] p = tt
All-drop (suc n) (e ∷ es) (p, ps) = All-drop n es ps

-- A writer as it is created with a batch size from 2 to 2^24, at any later time.
pub record IsWriting (w : Writer) : Type 0 where
  pub ready : IsReady w.buffer
  pub several : 2 ≤ w.batch_size
  pub small : w.batch_size < 2 ^ 24
  pub text_sized : w.write_buffer_size ≡ w.batch_size * 256
  pub printable : All IsPrintable (queued w.buffer)

-- What a round of the thread leaves.
pub record Written (w t : Writer) : Type 0 where
  pub valid : IsWriting t
  pub left : queued t.buffer ≡ drop w.batch_size (queued w.buffer)
  pub text : t.file ≡ w.file ++ lines w.csv_type (take w.batch_size (queued w.buffer))

pub write_batch-Written : (w : Writer) → IsWriting w → Written w (write_batch true w)
unfolding write_batch
write_batch-Written w v =
    let p = csv_dequeue_batch-Popped w.batch_size v.ready in
    let batch = take w.batch_size (queued w.buffer) in
    record {
      valid = record {
        ready = p.valid;
        several = v.several;
        small = v.small;
        text_sized = v.text_sized;
        printable =
            subst (All IsPrintable) (sym p.holds)
              (All-drop w.batch_size (queued w.buffer) v.printable);
      };
      left = p.holds;
      text =
          ap (λ l. w.file ++ l)
            (ap₂ (λ es size. csv_format_batch es size w.csv_type) p.taken v.text_sized
              ∙ csv_format_batch-lines w.batch_size w.csv_type batch v.several
                  (omega (arith, length-take w.batch_size (queued w.buffer)))
                  (All-take w.batch_size (queued w.buffer) v.printable));
    }

-- What the two threads do, in the order in which it takes effect: an entry is offered to the log, or the
-- writer does a round, whose write succeeds.
pub data Event : Type 0 where
  offer : CsvEntry → Event
  write_round : Event

abbrev pub Offers : (CsvEntry → Type 0) → Event → Type 0
Offers P (offer e) = P e
Offers P write_round = Unit

-- The entries that were accepted, and the writer after the events.
unfoldable pub run : List Event → Writer → List CsvEntry × Writer
run [] w = ([], w)
run (offer e ∷ events) w =
    let (outcome, buffer) = csv_enqueue_fast w.buffer e in
    let (into, end) = run events (record w { buffer = buffer }) in (joined outcome e into, end)
run (write_round ∷ events) w = run events (write_batch true w)

-- What a run leaves.
pub record Ran (w : Writer) (into : List CsvEntry) (t : Writer) : Type 0 where
  pub valid : IsWriting t
  pub same_type : t.csv_type ≡ w.csv_type
  pub same_batch : t.batch_size ≡ w.batch_size
  pub text :
      t.file ++ lines w.csv_type (queued t.buffer)
      ≡ w.file ++ lines w.csv_type (queued w.buffer ++ into)

module _ (w : Writer) (v : IsWriting w) (e : CsvEntry) (p : IsPrintable e) where
  offered : Writer
  offered = record w { buffer = (csv_enqueue_fast w.buffer e).1 }

  pushed-queued :
      queued (csv_enqueue_fast w.buffer e).1
      ≡ queued w.buffer ++ joined (csv_enqueue_fast w.buffer e).0 e []
  pushed-queued =
      let pushed = csv_enqueue_fast-PushedTo v.ready e in
      elim (Bool-cases (has_room w.buffer)) [
        | inl room ↦
            pushed.holds
            ∙ (ap (λ (k : Bool). if k then queued w.buffer ++ e ∷ [] else queued w.buffer) room
                ∙ ap (λ o. queued w.buffer ++ joined o e [])
                    (sym (
                      pushed.told
                      ∙ ap (λ (k : Bool). if k then Pushed.accepted else Pushed.dropped) room)))
        | inr no_room ↦
            pushed.holds
            ∙ (ap (λ (k : Bool). if k then queued w.buffer ++ e ∷ [] else queued w.buffer) no_room
                ∙ (sym (append-nil (queued w.buffer))
                    ∙ ap (λ o. queued w.buffer ++ joined o e [])
                        (sym (
                          pushed.told
                          ∙ ap (λ (k : Bool). if k then Pushed.accepted else Pushed.dropped)
                              no_room))))
      ]

  joined-IsPrintable : (o : Pushed) → All IsPrintable (joined o e [])
  joined-IsPrintable Pushed.accepted = (p, tt)
  joined-IsPrintable Pushed.dropped = tt

  offered-IsWriting : IsWriting offered
  unfolding offered
  offered-IsWriting = record {
    ready = (csv_enqueue_fast-PushedTo v.ready e).valid;
    several = v.several;
    small = v.small;
    text_sized = v.text_sized;
    printable = subst (All IsPrintable) (sym pushed-queued) (
        All-append IsPrintable (queued w.buffer) (joined (csv_enqueue_fast w.buffer e).0 e [])
          v.printable (joined-IsPrintable (csv_enqueue_fast w.buffer e).0));
  }

joined-append :
    (o : Pushed) (e : CsvEntry) (into : List CsvEntry) → joined o e [] ++ into ≡ joined o e into
joined-append Pushed.accepted e into = refl
joined-append Pushed.dropped e into = refl

pub run-Ran :
    (events : List Event) (w : Writer)
    → IsWriting w
    → All (Offers IsPrintable) events
    → Ran w (run events w).0 (run events w).1
unfolding run offered write_batch
run-Ran [] w v p = record {
  valid = v;
  same_type = refl;
  same_batch = refl;
  text = ap (λ es. w.file ++ lines w.csv_type es) (sym (append-nil (queued w.buffer)));
}
run-Ran (offer e ∷ events) w v (p, ps) =
    let r = run-Ran events (offered w v e p) (offered-IsWriting w v e p) ps in
    let o = (csv_enqueue_fast w.buffer e).0 in
    let into = (run events (offered w v e p)).0 in
    record {
      valid = r.valid;
      same_type = r.same_type;
      same_batch = r.same_batch;
      text =
          r.text
          ∙ ap (λ es. w.file ++ lines w.csv_type es)
              (ap (λ q. q ++ into) (pushed-queued w v e p)
                ∙ (append_assoc (queued w.buffer) (joined o e []) into
                    ∙ ap (λ l. queued w.buffer ++ l) (joined-append o e into)));
    }
run-Ran (write_round ∷ events) w v (p, ps) =
    let one = write_batch-Written w v in
    let r = run-Ran events (write_batch true w) one.valid ps in
    let t = w.csv_type in
    let batch = take w.batch_size (queued w.buffer) in
    let rest = drop w.batch_size (queued w.buffer) in
    let into = (run events (write_batch true w)).0 in
    record {
      valid = r.valid;
      same_type = r.same_type;
      same_batch = r.same_batch;
      text =
          r.text
          ∙ (ap₂ (λ f q. f ++ lines t (q ++ into)) one.text one.left
              ∙ (append_assoc w.file (lines t batch) (lines t (rest ++ into))
                  ∙ ap (λ l. w.file ++ l)
                      (sym (lines-append t batch (rest ++ into))
                        ∙ ap (lines t) (
                            sym (append_assoc batch rest into)
                            ∙ ap (λ q. q ++ into)
                                (take-append-drop w.batch_size (queued w.buffer))))));
    }
