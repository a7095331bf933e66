-- ===== src/Client/Sending/Sent.antt =====
-- Whole runs of the sending loops of src/timestamp_client.c: which packets are sent.
use trading_latency_benchmar.Prelude.{
  ℕ, ◌^◌, ◌≤◌, ◌<◌, ◌≡◌, refl, ◌∙◌, sym, ap, arith, Bool, true, false, Option, none, some, List, [],
  ◌∷◌, ◌++◌, length, length-append, length-take, take, append-nil, Bytes, All, if◌then◌else◌, subst,
}
use trading_latency_benchmar.Stats.Entry.{StatsConfig}
use trading_latency_benchmar.Timing.{Limits, Instant, live_rounds}
use trading_latency_benchmar.Client.Sending.{
  Sample, ClientState, advance, fill_batch, batch_count_for, record_oneway, record_all_oneway,
  SendOutcome, oneway_round, roundtrip_round, Round, run_rounds,
}
use trading_latency_benchmar.Client.Sending.Packets.{
  Numbered, IsPort, fill_batch-Numbered, fill_batch-sized, length-fill_batch,
}

-- The rounds that the check of the time lets through.
abbrev pub reached : Limits → ℕ → List (Instant × Round) → List Round
reached limits cycles timed =
    live_rounds limits (record { loop_counter = 0; last_time_check_cycles = cycles }) timed

-- How many packets a round sends, and whether the loop goes on behind it.
abbrev pub taken : SendOutcome → ℕ
taken (SendOutcome.sent n) = n
taken SendOutcome.would_block = 0
taken SendOutcome.send_failed = 0

abbrev pub goes_on : SendOutcome → Bool
goes_on (SendOutcome.sent n) = true
goes_on SendOutcome.would_block = true
goes_on SendOutcome.send_failed = false

-- The samples of the packets that are sent.
unfoldable pub sent_samples : List Round → List Sample
sent_samples [] = []
sent_samples (round ∷ rounds) =
    let rest = sent_samples rounds in
    take (taken round.outcome) round.samples ++ (if goes_on round.outcome then rest else [])

-- There is a sample for each packet of a batch, and the socket takes no more packets than it is given.
pub record IsRound (pps : ℕ) (round : Round) : Type 0 where
  pub sampled : length round.samples ≡ batch_count_for pps
  pub no_more : taken round.outcome ≤ batch_count_for pps

-- The buffers hold a packet of the size each, one for each place of the largest batch.
pub record IsReadyToSend (size : ℕ) (s : ClientState) : Type 0 where
  pub word : s.seq_num < 2 ^ 32
  pub sized : All (λ p. length p ≡ size) s.packet_buffers
  pub enough : length s.packet_buffers ≡ 128

-- What the two kinds of rounds have in common.
pub record DoesRound (rx_port : Option ℕ) (pps : ℕ) (outcome : SendOutcome) (s : ClientState)
    (result : Bool × List Bytes × ClientState) : Type 0 where
  pub continues : result.0 ≡ goes_on outcome
  pub offers :
      result.1
      ≡ take (taken outcome) (fill_batch rx_port s.seq_num (batch_count_for pps) s.packet_buffers)
  pub fills :
      result.2.packet_buffers ≡ fill_batch rx_port s.seq_num (batch_count_for pps) s.packet_buffers
  pub advances : result.2.seq_num ≡ advance s.seq_num (taken outcome)

abbrev pub IsStep :
    Option ℕ
    → ℕ
    → (List Sample → SendOutcome → ClientState → Bool × List Bytes × ClientState)
    → Type 0
IsStep rx_port pps step =
    (xs : List Sample) (o : SendOutcome) (s : ClientState)
    → s.seq_num < 2 ^ 32
    → DoesRound rx_port pps o s (step xs o s)

pub roundtrip_round-IsStep :
    (config : StatsConfig) (src_port rx_port pps : ℕ)
    → IsStep (some rx_port) pps (roundtrip_round config src_port rx_port pps)
unfolding roundtrip_round
roundtrip_round-IsStep config src_port rx_port pps xs (SendOutcome.sent n) s word = record {
  continues = refl;
  offers = refl;
  fills = refl;
  advances = refl;
}
roundtrip_round-IsStep config src_port rx_port pps xs SendOutcome.would_block s word = record {
  continues = refl;
  offers = refl;
  fills = refl;
  advances = omega (arith, word);
}
roundtrip_round-IsStep config src_port rx_port pps xs SendOutcome.send_failed s word = record {
  continues = refl;
  offers = refl;
  fills = refl;
  advances = omega (arith, word);
}

module _ (config : StatsConfig) (csv_enabled : Bool) (src_ip : Bytes) (src_port : ℕ) where
  -- The statistics and the log leave the buffers and the number.
  record_all-kept :
      (n : ℕ) (xs : List Sample) (s : ClientState)
      → let t = record_all_oneway config csv_enabled src_ip src_port n xs s in
        (t.packet_buffers ≡ s.packet_buffers) × (t.seq_num ≡ s.seq_num)
  unfolding record_all_oneway record_oneway
  record_all-kept n [] s = (refl, refl)
  record_all-kept n (x ∷ xs) s =
      record_all-kept (advance n 1) xs (record_oneway config csv_enabled src_ip src_port n x s)

  pub oneway_round-IsStep :
      (pps : ℕ) → IsStep none pps (oneway_round config csv_enabled src_ip src_port pps)
  unfolding oneway_round
  oneway_round-IsStep pps xs (SendOutcome.sent n) s word =
      let filled = record s {
        packet_buffers = fill_batch none s.seq_num (batch_count_for pps) s.packet_buffers;
      } in
      let (buffers, number) = record_all-kept s.seq_num (take n xs) filled in
      record {
        continues = refl;
        offers = refl;
        fills = buffers;
        advances = ap (λ m. advance m n) number;
      }
  oneway_round-IsStep pps xs SendOutcome.would_block s word = record {
    continues = refl;
    offers = refl;
    fills = refl;
    advances = omega (arith, word);
  }
  oneway_round-IsStep pps xs SendOutcome.send_failed s word = record {
    continues = refl;
    offers = refl;
    fills = refl;
    advances = omega (arith, word);
  }

Numbered-append :
    (rx_port : Option ℕ) (size n : ℕ) (xs ys : List Bytes)
    → n < 2 ^ 32
    → Numbered rx_port size n xs
    → Numbered rx_port size (advance n (length xs)) ys
    → Numbered rx_port size n (xs ++ ys)
Numbered-append rx_port size n [] ys word hx hy =
    subst (λ m. Numbered rx_port size m ys) (omega arith) hy
Numbered-append rx_port size n (x ∷ xs) ys word (one, hx) hy = (
  one,
  Numbered-append rx_port size (advance n 1) xs ys (omega arith) hx
      (subst (λ m. Numbered rx_port size m ys) (omega arith) hy),
)

-- What a run has sent.
pub record Sent (rx_port : Option ℕ) (size n : ℕ) (xs : List Sample) (out : List Bytes)
    (t : ClientState) : Type 0 where
  pub numbered : Numbered rx_port size n out
  pub counted : length out ≡ length xs
  pub next : t.seq_num ≡ advance n (length xs)

module _ (rx_port : Option ℕ) (size : ℕ) where
  -- A round and the rest of the run, if there is one.
  join-Sent :
      {n : ℕ} (go : Bool) {xs ys : List Sample} {out more : List Bytes} {t end : ClientState}
      → n < 2 ^ 32
      → Sent rx_port size n xs out t
      → IsReadyToSend size t
      → Sent rx_port size t.seq_num ys more end
      → IsReadyToSend size end
      → let both : List Bytes × ClientState = if go then (out ++ more, end) else (out, t) in
        Sent rx_port size n (xs ++ (if go then ys else [])) both.0 both.1
        × IsReadyToSend size both.1
  join-Sent {n} true {xs} {ys} {out} {more} {t} {end} word first ready rest done =
      let from : advance n (length out) ≡ t.seq_num =
        ap (advance n) first.counted ∙ sym first.next in
      let sum = length-append xs ys in
      (
        record {
          numbered =
              Numbered-append rx_port size n out more word first.numbered
                (subst (λ m. Numbered rx_port size m more) (sym from) rest.numbered);
          counted = omega (arith, length-append out more, sum, first.counted, rest.counted);
          next = omega (arith, rest.next, first.next, sum);
        },
        done,
      )
  join-Sent {n} false {xs} {ys} {out} {more} {t} {end} word first ready rest done =
      (subst (λ l. Sent rx_port size n l out t) (sym (append-nil xs)) first, ready)

module _ (rx_port : Option ℕ) (size pps : ℕ) (port : IsPort rx_port) (long : 8 ≤ size)
    {step : List Sample → SendOutcome → ClientState → Bool × List Bytes × ClientState}
    (does : IsStep rx_port pps step) where
  pub round-Sent :
      (r : Round) (s : ClientState)
      → IsRound pps r
      → IsReadyToSend size s
      → let (go, out, t) = step r.samples r.outcome s in
        Sent rx_port size s.seq_num (take (taken r.outcome) r.samples) out t × IsReadyToSend size t
  round-Sent r s ok v =
      let c = batch_count_for pps in
      let buffers = fill_batch rx_port s.seq_num c s.packet_buffers in
      let few : c ≤ 128 = ground arith in
      let same = length-fill_batch rx_port c s.seq_num s.packet_buffers in
      let did = does r.samples r.outcome s v.word in
      let left : length (take (taken r.outcome) r.samples) ≡ taken r.outcome =
        omega (arith, length-take (taken r.outcome) r.samples, ok.sampled, ok.no_more) in
      (
        record {
          numbered = subst (Numbered rx_port size s.seq_num) (sym did.offers) (
              fill_batch-Numbered rx_port size port long (taken r.outcome) c s.seq_num
                s.packet_buffers ok.no_more v.word v.sized);
          counted =
              ap length did.offers
              ∙ omega
                  (arith, length-take (taken r.outcome) buffers, left, same, v.enough, ok.no_more);
          next = did.advances ∙ ap (advance s.seq_num) (sym left);
        },
        record {
          word = omega (arith, did.advances);
          sized =
              subst (All (λ p. length p ≡ size)) (sym did.fills) (
                fill_batch-sized rx_port size port long c s.seq_num s.packet_buffers v.word
                  v.sized);
          enough = ap length did.fills ∙ (same ∙ v.enough);
        },
      )

  -- The packets of a run carry the numbers that follow the current one, and their size.
  pub run_rounds-Sent :
      (rounds : List Round) (s : ClientState)
      → All (IsRound pps) rounds
      → IsReadyToSend size s
      → let (out, t) = run_rounds step rounds s in
        Sent rx_port size s.seq_num (sent_samples rounds) out t × IsReadyToSend size t
  unfolding run_rounds sent_samples
  run_rounds-Sent [] s ok v =
      (record { numbered = tt; counted = refl; next = omega (arith, v.word) }, v)
  run_rounds-Sent (r ∷ rounds) s (one, ok) v =
      let (first, ready) = round-Sent r s one v in
      let (rest, end) = run_rounds-Sent rounds (step r.samples r.outcome s).2 ok ready in
      rw ((does r.samples r.outcome s v.word).continues)
        (join-Sent rx_port size (goes_on r.outcome) v.word first ready rest end)
