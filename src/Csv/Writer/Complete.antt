-- ===== src/Csv/Writer/Complete.antt =====
-- The file of the CSV log of src/timestamp_common.c from its creation to the flush at the end.
use trading_latency_benchmar.Prelude.{
  ℕ, ◌-◌, ◌*◌, ◌%◌, ◌^◌, ◌≤◌, ◌<◌, ◌≡◌, refl, ◌∙◌, sym, ap, ap₂, arith, Bool, true, ◌||◌, not, none,
  some, List, [], ◌++◌, length, length-replicate, replicate, take, take-ge, if◌then◌else◌, All,
  Bool-cases, inl, inr, ◌==◌, subst, some-of,
}
use trading_latency_benchmar.Ring.Index.{IsMask}
use trading_latency_benchmar.Ring.Size.{is_pow2, is_pow2-pow, exponent_lt}
use trading_latency_benchmar.Ring.Contents.{contents_empty}
use trading_latency_benchmar.Prelude.Words.{pow-pos}
use trading_latency_benchmar.Csv.{CsvType, no_entry, get_csv_header}
use trading_latency_benchmar.Csv.Queue.{queued}
use trading_latency_benchmar.Csv.Writer.{Writer, Creation, csv_buffer_create, write_batch}
use trading_latency_benchmar.Csv.Writer.Length.{IsPrintable}
use trading_latency_benchmar.Csv.Writer.Lines.{
  lines, IsWriting, write_batch-Written, Event, Offers, run, run-Ran,
}

-- A writer that has just been created.
record Created (t : CsvType) (batch_size : ℕ) (w : Writer) : Type 0 where
  valid : IsWriting w
  empty : queued w.buffer ≡ []
  header : w.file ≡ get_csv_header t
  typed : w.csv_type ≡ t
  batched : w.batch_size ≡ batch_size

fresh : ℕ → CsvType → ℕ → Writer
fresh size t b = record {
  buffer = record { entries = replicate size no_entry; head = 0; tail = 0; size_mask = size - 1 };
  batch_size = b;
  write_buffer_size = b * 256 % 2 ^ 32;
  csv_type = t;
  file = get_csv_header t;
}

fresh-Created :
    (e b : ℕ) (t : CsvType) → e ≤ 32 → 2 ≤ b → b < 2 ^ 24 → Created t b (fresh (2 ^ e) t b)
unfolding fresh
fresh-Created e b t wide several small =
    let ones : IsMask (2 ^ e - 1) = record { width = e; wide = wide; ones = refl } in
    let empty = contents_empty ones no_entry (replicate (2 ^ e) no_entry) 0 (omega arith) in
    record {
      valid = record {
        ready = record {
          ones = ones;
          sized = length-replicate (2 ^ e) no_entry ∙ omega (arith, pow-pos e);
          head_in = omega arith;
          tail_in = omega arith;
        };
        several = several;
        small = small;
        text_sized = omega arith;
        printable = subst (All IsPrintable) (sym empty) tt;
      };
      empty = empty;
      header = refl;
      typed = refl;
      batched = refl;
    }

-- A size that a power of two is given for, and everything that the system is asked for.
abbrev refused : Creation → ℕ → Bool
refused system size =
    size == 0
    || not (is_pow2 size)
    || not system.control
    || not system.entries
    || not system.text
    || not system.file
    || not system.thread

-- What is created where nothing is refused.
abbrev made_of : Creation → ℕ → CsvType → ℕ → Writer
made_of system size t b = record {
  buffer = record { entries = replicate size no_entry; head = 0; tail = 0; size_mask = size - 1 };
  batch_size = b;
  write_buffer_size = b * 256 % 2 ^ 32;
  csv_type = t;
  file = if system.header then get_csv_header t else [];
}

csv_buffer_create-Created :
    (system : Creation) (size b : ℕ) (t : CsvType) (w : Writer)
    → size < 2 ^ 32
    → 2 ≤ b
    → b < 2 ^ 24
    → system.header ≡ true
    → csv_buffer_create system size t b ≡ some w
    → Created t b w
unfolding csv_buffer_create fresh
csv_buffer_create-Created system size b t w word several small header made =
    elim (Bool-cases (refused system size)) [
      | inl refusal ↦
          let none_made : none ≡ some w =
            ap (λ (k : Bool). if k then none else some (made_of system size t b)) (sym refusal)
            ∙ made in
          absurd (ground (arith, none_made))
      | inr allowed ↦
          let (e, pow) = is_pow2-pow size (ground (arith, allowed)) (ground (arith, allowed)) in
          let low : e < 32 = exponent_lt e 32 (omega arith) in
          let same : fresh size t b ≡ w = some-of (
            ap
              (λ (k : Bool).
                some (record (fresh size t b) { file = if k then get_csv_header t else [] }))
              (sym header)
            ∙ (ap (λ (k : Bool). if k then none else some (made_of system size t b)) (sym allowed)
                ∙ made)) in
          subst (Created t b) (ap (λ n. fresh n t b) (sym pow) ∙ same)
            (fresh-Created e b t (omega arith) several small)
    ]

-- The log is created with a header that is written, for entries whose texts and numbers fit their fields
-- and a batch size from 2 to 2^24 - 1; then entries are offered and rounds of the thread are done, in any
-- order, and every write succeeds. If at most one batch is queued when the last round is done, the file is
-- the header followed by one whole line for each accepted entry, in order.
pub csv_writer_complete :
    (system : Creation) (size b : ℕ) (t : CsvType) (w : Writer) (events : List Event)
    → size < 2 ^ 32
    → 2 ≤ b
    → b < 2 ^ 24
    → system.header ≡ true
    → csv_buffer_create system size t b ≡ some w
    → All (Offers IsPrintable) events
    → length (queued (run events w).1.buffer) ≤ b
    → (write_batch true (run events w).1).file ≡ get_csv_header t ++ lines t (run events w).0
csv_writer_complete system size b t w events word several small header made p last =
    let c = csv_buffer_create-Created system size b t w word several small header made in
    let r = run-Ran events w c.valid p in
    let end = (run events w).1 in
    let one = write_batch-Written end r.valid in
    let all_taken : take end.batch_size (queued end.buffer) ≡ queued end.buffer =
      take-ge end.batch_size (queued end.buffer) (omega (arith, r.same_batch, c.batched)) in
    one.text
    ∙ (ap₂ (λ ty es. end.file ++ lines ty es) r.same_type all_taken
        ∙ (r.text
            ∙ (ap₂ (λ f q. f ++ lines w.csv_type (q ++ (run events w).0)) c.header c.empty
                ∙ ap (λ ty. get_csv_header t ++ lines ty (run events w).0) c.typed)))
