-- ===== src/Csv/Queue.antt =====
-- The CSV ring buffer as a queue: `csv_enqueue_fast`, called by the network thread, and
-- `csv_dequeue_batch`, called by the writer thread.
use trading_latency_benchmar.Prelude.{
  ℕ, zero, suc, ◌+◌, ◌≤◌, ◌≡◌, refl, ◌∙◌, sym, ap, ap₂, arith, List, [], ◌∷◌, ◌++◌, append_assoc,
  append-nil, length, length-set, get_or, take, Bool, true, false, ltb, drop, ◌==◌, if◌then◌else◌,
  take-append-drop, Bool-cases, inl, inr,
}
use trading_latency_benchmar.Ring.Index.{IsMask, next_index, index_distance}
use trading_latency_benchmar.Ring.Segment.{segment}
use trading_latency_benchmar.Ring.Contents.{next_index-le}
use trading_latency_benchmar.Ring.Ends.{push_cases, pop_cases}
use trading_latency_benchmar.Csv.{
  CsvEntry, CsvRingBuffer, no_entry, Pushed, accepted, dropped, csv_enqueue_fast, csv_dequeue_batch,
}

-- A buffer as `csv_buffer_create` sets it up, at any later time.
pub record IsReady (b : CsvRingBuffer) : Type 0 where
  pub ones : IsMask b.size_mask
  pub sized : length b.entries ≡ b.size_mask + 1
  pub head_in : b.head ≤ b.size_mask
  pub tail_in : b.tail ≤ b.size_mask

-- The entries from the tail up to the head, oldest first.
abbrev pub queued : CsvRingBuffer → List CsvEntry
queued b =
    segment no_entry (b.size_mask + 1) b.entries b.tail (index_distance b.size_mask b.head b.tail)

-- Is there room for another entry? One place always stays free.
abbrev pub has_room : CsvRingBuffer → Bool
has_room b = ltb (length (queued b)) b.size_mask

-- What `csv_enqueue_fast` makes of a buffer.
pub record PushedTo (b : CsvRingBuffer) (e : CsvEntry) (outcome : Pushed) (t : CsvRingBuffer)
    : Type 0 where
  pub valid : IsReady t
  pub same_size : t.size_mask ≡ b.size_mask
  pub told : outcome ≡ (if has_room b then accepted else dropped)
  pub holds : queued t ≡ (if has_room b then queued b ++ e ∷ [] else queued b)

-- On a buffer in order `csv_enqueue_fast` adds the entry at the end of the queue and tells that it was
-- accepted if fewer than `size_mask` entries are queued; else it leaves the queue and tells that the
-- entry was dropped.
pub csv_enqueue_fast-PushedTo :
    {b : CsvRingBuffer} (v : IsReady b) (e : CsvEntry)
    → PushedTo b e (csv_enqueue_fast b e).0 (csv_enqueue_fast b e).1
unfolding csv_enqueue_fast
csv_enqueue_fast-PushedTo {b} v e =
    elim (push_cases v.ones no_entry b.entries b.head b.tail v.head_in v.tail_in e
      (omega (arith, v.sized))) [
        | inl (full, no_room) ↦
            let test : next_index b.size_mask b.head == b.tail ≡ true = ground (arith, full) in
            rw test (record {
              valid = v;
              same_size = refl;
              told = ap (λ r. if r then accepted else dropped) (sym no_room);
              holds = ap (λ r. if r then queued b ++ e ∷ [] else queued b) (sym no_room);
            })
        | inr (open_place, room, pushed) ↦
            let test : next_index b.size_mask b.head == b.tail ≡ false =
              ground (arith, open_place) in
            rw test (record {
              valid = record {
                ones = v.ones;
                sized = length-set b.entries b.head e ∙ v.sized;
                head_in = next_index-le v.ones b.head;
                tail_in = v.tail_in;
              };
              same_size = refl;
              told = ap (λ r. if r then accepted else dropped) (sym room);
              holds = pushed ∙ ap (λ r. if r then queued b ++ e ∷ [] else queued b) (sym room);
            })
      ]

-- The buffer after one round of the loop of `csv_dequeue_batch`.
abbrev without_first : CsvRingBuffer → CsvRingBuffer
without_first b = record b { tail = next_index b.size_mask b.tail }

without_first-IsReady : {b : CsvRingBuffer} → IsReady b → IsReady (without_first b)
without_first-IsReady {b} v = record {
  ones = v.ones;
  sized = v.sized;
  head_in = v.head_in;
  tail_in = next_index-le v.ones b.tail;
}

-- What `csv_dequeue_batch` makes of a buffer.
pub record Popped (n : ℕ) (b : CsvRingBuffer) (batch : List CsvEntry) (t : CsvRingBuffer)
    : Type 0 where
  pub valid : IsReady t
  pub same_size : t.size_mask ≡ b.size_mask
  pub taken : batch ≡ take n (queued b)
  pub holds : queued t ≡ drop n (queued b)

-- On a buffer in order `csv_dequeue_batch` takes the first `max_entries` entries of the queue, or all if
-- there are fewer, and leaves the others.
pub csv_dequeue_batch-Popped :
    (max_entries : ℕ) {b : CsvRingBuffer}
    → IsReady b
    → Popped max_entries b (csv_dequeue_batch max_entries b).0 (csv_dequeue_batch max_entries b).1
unfolding csv_dequeue_batch
csv_dequeue_batch-Popped zero v = record { valid = v; same_size = refl; taken = refl; holds = refl }
csv_dequeue_batch-Popped (suc n) {b} v =
    elim (pop_cases v.ones no_entry b.entries b.head b.tail v.head_in v.tail_in) [
      | inl (nothing, none_queued) ↦
          let test : b.tail == b.head ≡ true = ground (arith, nothing) in
          rw test (record {
            valid = v;
            same_size = refl;
            taken = sym (ap (take (suc n)) none_queued);
            holds = none_queued ∙ sym (ap (drop (suc n)) none_queued);
          })
      | inr (something, first) ↦
          let test : b.tail == b.head ≡ false = ground (arith, something) in
          let rest = csv_dequeue_batch-Popped n {b = without_first b} (without_first-IsReady v) in
          rw test (record {
            valid = rest.valid;
            same_size = rest.same_size;
            taken =
                ap (λ r. get_or b.entries b.tail no_entry ∷ r) rest.taken
                ∙ sym (ap (take (suc n)) first);
            holds = rest.holds ∙ sym (ap (drop (suc n)) first);
          })
    ]

-- The calls of the two threads, in the order in which they take effect. A batch of several entries is
-- several calls if the other thread adds entries in between.
pub data Call : Type 0 where
  enqueue : CsvEntry → Call
  dequeue : ℕ → Call

-- The accepted entries with this one, if it was accepted.
abbrev pub joined : Pushed → CsvEntry → List CsvEntry → List CsvEntry
joined accepted e into = e ∷ into
joined dropped e into = into

-- The entries that were accepted, those that were delivered, and the buffer after the calls.
unfoldable pub run_calls : List Call → CsvRingBuffer → List CsvEntry × List CsvEntry × CsvRingBuffer
run_calls [] b = ([], [], b)
run_calls (enqueue e ∷ calls) b =
    let (outcome, t) = csv_enqueue_fast b e in
    let (into, out, end) = run_calls calls t in (joined outcome e into, out, end)
run_calls (dequeue n ∷ calls) b =
    let (batch, t) = csv_dequeue_batch n b in
    let (into, out, end) = run_calls calls t in (into, batch ++ out, end)

-- What a run of calls leaves.
pub record Ran (b : CsvRingBuffer) (into out : List CsvEntry) (t : CsvRingBuffer) : Type 0 where
  pub valid : IsReady t
  pub in_order : out ++ queued t ≡ queued b ++ into

enqueue-Ran :
    {b t : CsvRingBuffer} {outcome : Pushed} {e : CsvEntry} {into out : List CsvEntry}
    {end : CsvRingBuffer}
    → PushedTo b e outcome t
    → Ran t into out end
    → Ran b (joined outcome e into) out end
enqueue-Ran {b} {t} {outcome} {e} {into} p r = record {
  valid = r.valid;
  in_order = r.in_order ∙ elim (Bool-cases (has_room b)) [
    | inl room ↦
        ap (λ q. q ++ into) (p.holds ∙ ap (λ k. if k then queued b ++ e ∷ [] else queued b) room)
        ∙ (append_assoc (queued b) (e ∷ []) into
            ∙ ap (λ k. queued b ++ joined k e into)
                (sym (p.told ∙ ap (λ k. if k then accepted else dropped) room)))
    | inr no_room ↦
        ap (λ q. q ++ into) (p.holds ∙ ap (λ k. if k then queued b ++ e ∷ [] else queued b) no_room)
        ∙ ap (λ k. queued b ++ joined k e into)
            (sym (p.told ∙ ap (λ k. if k then accepted else dropped) no_room))
  ];
}

dequeue-Ran :
    {n : ℕ} {b t : CsvRingBuffer} {batch into out : List CsvEntry} {end : CsvRingBuffer}
    → Popped n b batch t
    → Ran t into out end
    → Ran b into (batch ++ out) end
dequeue-Ran {n} {b} {t} {batch} {into} {out} {end} p r = record {
  valid = r.valid;
  in_order =
      append_assoc batch out (queued end)
      ∙ (ap₂ ◌++◌ p.taken (r.in_order ∙ ap (λ q. q ++ into) p.holds)
          ∙ (sym (append_assoc (take n (queued b)) (drop n (queued b)) into)
              ∙ ap (λ q. q ++ into) (take-append-drop n (queued b))));
}

-- Whatever calls the two threads make on a buffer in order, and in whatever order they take effect: the
-- delivered entries, followed by those still queued, are those queued before, followed by the accepted
-- ones. So none is lost, doubled or overtaken; the buffer stays in order.
pub run_calls-Ran :
    (calls : List Call) {b : CsvRingBuffer}
    → IsReady b
    → Ran b (run_calls calls b).0 (run_calls calls b).1 (run_calls calls b).2
unfolding run_calls
run_calls-Ran [] {b} v = record { valid = v; in_order = sym (append-nil (queued b)) }
run_calls-Ran (enqueue e ∷ calls) v =
    let p = csv_enqueue_fast-PushedTo v e in enqueue-Ran p (run_calls-Ran calls p.valid)
run_calls-Ran (dequeue n ∷ calls) v =
    let p = csv_dequeue_batch-Popped n v in dequeue-Ran p (run_calls-Ran calls p.valid)
