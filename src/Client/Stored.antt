-- ===== src/Client/Stored.antt =====
-- What the correlation arrays of src/timestamp_client.c hold after a run of `run_client_roundtrip`.
use trading_latency_benchmar.Prelude.{
  ℕ, suc, ◌^◌, ◌≤◌, ◌<◌, ◌≡◌, refl, ◌∙◌, sym, ap, arith, Bool, true, false, some, List, [], ◌∷◌,
  ◌++◌, append-nil, length, take, Bytes, All, if◌then◌else◌,
}
use trading_latency_benchmar.Stats.Entry.{StatsConfig}
use trading_latency_benchmar.Client.Arrays.{TxCorrelation}
use trading_latency_benchmar.Client.Sending.{
  Sample, ClientState, advance, store_all_times, SendOutcome, roundtrip_round, Round, run_rounds,
  roundtrip_rounds,
}
use trading_latency_benchmar.Client.Sending.Sent.{
  taken, goes_on, sent_samples, IsRound, IsReadyToSend, roundtrip_round-IsStep, round-Sent,
}

pub store-append :
    (n : ℕ) (xs ys : List Sample) (c : TxCorrelation)
    → n < 2 ^ 32
    → store_all_times (advance n (length xs)) ys (store_all_times n xs c)
      ≡ store_all_times n (xs ++ ys) c
unfolding store_all_times
store-append n [] ys c word = ap (λ m. store_all_times m ys c) (omega arith)
store-append n (x ∷ xs) ys c word =
    let next : advance n (suc (length xs)) ≡ advance (advance n 1) (length xs) = omega arith in
    ap (λ m. store_all_times m ys (store_all_times n (x ∷ xs) c)) next
    ∙ store-append (advance n 1) xs ys _ (omega arith)

module _ (config : StatsConfig) (src_port rx_port : ℕ) where
  round-stored :
      (pps : ℕ) (xs : List Sample) (o : SendOutcome) (s : ClientState)
      → (roundtrip_round config src_port rx_port pps xs o s).2.correlation
        ≡ store_all_times s.seq_num (take (taken o) xs) s.correlation
  unfolding roundtrip_round store_all_times
  round-stored pps xs (SendOutcome.sent n) s = refl
  round-stored pps xs SendOutcome.would_block s = refl
  round-stored pps xs SendOutcome.send_failed s = refl

  -- A round and the rest of the run, if there is one.
  join-stored :
      (go : Bool) (n : ℕ) (xs ys : List Sample) (out more : List Bytes) (c : TxCorrelation)
      (t end : ClientState)
      → n < 2 ^ 32
      → t.correlation ≡ store_all_times n xs c
      → end.correlation ≡ store_all_times (advance n (length xs)) ys t.correlation
      → let both : List Bytes × ClientState = if go then (out ++ more, end) else (out, t) in
        both.1.correlation ≡ store_all_times n (xs ++ (if go then ys else [])) c
  join-stored true n xs ys out more c t end word first rest =
      rest ∙ (ap (store_all_times (advance n (length xs)) ys) first ∙ store-append n xs ys c word)
  join-stored false n xs ys out more c t end word first rest =
      first ∙ ap (λ l. store_all_times n l c) (sym (append-nil xs))

  module _ (size pps : ℕ) (port : rx_port < 2 ^ 32) (long : 8 ≤ size) where
    pub run-stored :
        (rounds : List Round) (s : ClientState)
        → All (IsRound pps) rounds
        → IsReadyToSend size s
        → (roundtrip_rounds config src_port rx_port pps rounds s).1.correlation
          ≡ store_all_times s.seq_num (sent_samples rounds) s.correlation
    unfolding roundtrip_rounds run_rounds sent_samples store_all_times
    run-stored [] s ok v = refl
    run-stored (r ∷ rounds) s (one, ok) v =
        let does = roundtrip_round-IsStep config src_port rx_port pps in
        let (sent_first, v') = round-Sent (some rx_port) size pps port long does r s one v in
        let (go, out, t) = roundtrip_round config src_port rx_port pps r.samples r.outcome s in
        let rest =
          run-stored rounds t ok v'
          ∙ ap (λ m. store_all_times m (sent_samples rounds) t.correlation) sent_first.next in
        rw ((does r.samples r.outcome s v.word).continues) (
          join-stored (goes_on r.outcome) s.seq_num (take (taken r.outcome) r.samples)
            (sent_samples rounds) out (roundtrip_rounds config src_port rx_port pps rounds t).0
            s.correlation t (roundtrip_rounds config src_port rx_port pps rounds t).1 v.word
            (round-stored pps r.samples r.outcome s) rest)
