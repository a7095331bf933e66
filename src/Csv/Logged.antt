-- ===== src/Csv/Logged.antt =====
-- The CSV ring buffer of src/timestamp_common.c after several calls of `csv_enqueue_fast`.
use trading_latency_benchmar.Prelude.{
  suc, ◌-◌, ◌≡◌, refl, ◌∙◌, sym, ap, ap₂, arith, Bool, Option, some, List, [], ◌∷◌, ◌++◌,
  append_assoc, append-nil, length, length-append, length-take, take, if◌then◌else◌, inl, inr,
  Bool-cases, take-ge, take-append,
}
use trading_latency_benchmar.Csv.{CsvRingBuffer, CsvEntry, Pushed}
use trading_latency_benchmar.Csv.Queue.{IsReady, queued, has_room, PushedTo}

-- A buffer that held the queue of `b` and was offered these entries since.
pub record Logged (b : CsvRingBuffer) (entries : List CsvEntry) (offered : Option CsvRingBuffer)
    : Type 0 where
  pub log : CsvRingBuffer
  pub has_log : offered ≡ some log
  pub valid : IsReady log
  pub same_size : log.size_mask ≡ b.size_mask
  pub holds : queued log ≡ queued b ++ take (b.size_mask - length (queued b)) entries

pub nil-Logged :
    {b : CsvRingBuffer} {o : Option CsvRingBuffer} → o ≡ some b → IsReady b → Logged b [] o
nil-Logged {b} on v = record {
  log = b;
  has_log = on;
  valid = v;
  same_size = refl;
  holds =
      sym (append-nil (queued b))
      ∙ ap (λ l. queued b ++ l) (sym (take-ge (b.size_mask - length (queued b)) [] (omega arith)));
}

pub cons-Logged :
    {b b' : CsvRingBuffer} {e : CsvEntry} {es : List CsvEntry} {o : Option CsvRingBuffer}
    {told : Pushed}
    → PushedTo b e told b'
    → Logged b' es o
    → Logged b (e ∷ es) o
cons-Logged {b} {b'} {e} {es} p l = record {
  log = l.log;
  has_log = l.has_log;
  valid = l.valid;
  same_size = l.same_size ∙ p.same_size;
  holds = elim (Bool-cases (has_room b)) [
    | inl room ↦
        let pushed : queued b' ≡ queued b ++ e ∷ [] =
          p.holds ∙ ap (λ (k : Bool). if k then queued b ++ e ∷ [] else queued b) room in
        let left : b.size_mask - length (queued b) ≡ suc (b'.size_mask - length (queued b')) =
          ground (arith, room, p.same_size, ap length pushed, length-append (queued b) (e ∷ [])) in
        l.holds
        ∙ (ap (λ q. q ++ take (b'.size_mask - length (queued b')) es) pushed
            ∙ (append_assoc (queued b) (e ∷ []) _
                ∙ ap (λ n. queued b ++ take n (e ∷ es)) (sym left)))
    | inr no_room ↦
        let kept : queued b' ≡ queued b =
          p.holds ∙ ap (λ (k : Bool). if k then queued b ++ e ∷ [] else queued b) no_room in
        let none_left : b.size_mask - length (queued b) ≡ 0 = ground (arith, no_room) in
        let none_left' : b'.size_mask - length (queued b') ≡ 0 =
          ground (arith, no_room, p.same_size, ap length kept) in
        l.holds
        ∙ (ap₂ (λ q n. q ++ take n es) kept none_left'
            ∙ ap (λ n. queued b ++ take n (e ∷ es)) (sym none_left))
  ];
}

pub append-Logged :
    {b : CsvRingBuffer} {o o' : Option CsvRingBuffer} {xs ys : List CsvEntry}
    (first : Logged b xs o)
    → Logged first.log ys o'
    → Logged b (xs ++ ys) o'
append-Logged {b} {xs = xs} {ys = ys} first second =
    let room = b.size_mask - length (queued b) in
    let left : first.log.size_mask - length (queued first.log) ≡ room - length xs = omega (
      arith,
      first.same_size,
      ap length first.holds,
      length-append (queued b) (take room xs),
      length-take room xs,
    ) in
    record {
      log = second.log;
      has_log = second.has_log;
      valid = second.valid;
      same_size = second.same_size ∙ first.same_size;
      holds =
          second.holds
          ∙ (ap₂ (λ q n. q ++ take n ys) first.holds left
              ∙ (append_assoc (queued b) (take room xs) (take (room - length xs) ys)
                  ∙ ap (λ l. queued b ++ l) (sym (take-append room xs ys))));
    }
