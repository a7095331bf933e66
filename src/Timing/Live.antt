-- ===== src/Timing/Live.antt =====
-- When the loops of the client and of the one-way server end.
use trading_latency_benchmar.Prelude.{
  suc, ◌+◌, ◌-◌, ◌%◌, ◌^◌, ◌≤◌, ◌<◌, ◌≡◌, refl, ◌∙◌, ap, arith, true, false, ◌&&◌, none, some,
  Option-cases, ◌≢◌, List, [], ◌∷◌, ◌++◌, length, map, inl, inr, Bool-cases, All,
}
use trading_latency_benchmar.Timing.{
  Timing, Limits, Instant, should_check_time, check_time, live_rounds,
}

-- A round counts the counter up.
counted :
    (limits : Limits) (now : Instant) (t next : Timing)
    → check_time limits now t ≡ some next
    → next.loop_counter ≡ (t.loop_counter + 1) % 2 ^ 64
unfolding check_time
counted limits now t next e = ground (arith, e)

-- A round that is reached although the time is over: the clock was not looked at, and will be at the
-- latest when the counter is the next multiple of 50.
over-counter :
    (limits : Limits) (now : Instant) (t next : Timing)
    → limits.limited ≡ true
    → limits.is_over now.current_time ≡ true
    → t.loop_counter < 2 ^ 64
    → check_time limits now t ≡ some next
    → suc (49 - next.loop_counter % 50) ≤ 49 - t.loop_counter % 50
unfolding check_time
over-counter limits now t next limited over word e =
    let c = (t.loop_counter + 1) % 2 ^ 64 in
    elim (Bool-cases now.graceful_shutdown) [
      | inl asked ↦ absurd (ground (arith, asked, e))
      | inr not_asked ↦ elim (Bool-cases (should_check_time limits now t)) [
        | inl looks ↦ absurd (ground (arith, not_asked, looks, limited, over, e))
        | inr passes ↦
            let later : c % 50 ≢ 0 = ground (arith, passes) in
            omega (arith, later, counted limits now t next e)
      ]
    ]

module _ {ℓ} {A : Type ℓ} (limits : Limits) where
  -- The time is over at each of these.
  abbrev pub AreOver : List (Instant × A) → Type 0
  AreOver = All (λ r. limits.is_over r.0.current_time ≡ true)

  module _ (now : Instant) (round : A) (t : Timing) (rounds : List (Instant × A)) where
    live-none : check_time limits now t ≡ none → live_rounds limits t ((now, round) ∷ rounds) ≡ []
    unfolding live_rounds
    live-none e =
        ap (λ o. elim o [ none ↦ [] | some next ↦ round ∷ live_rounds limits next rounds ]) e

    live-some :
        {next : Timing}
        → check_time limits now t ≡ some next
        → live_rounds limits t ((now, round) ∷ rounds) ≡ round ∷ live_rounds limits next rounds
    unfolding live_rounds
    live-some e =
        ap (λ o. elim o [ none ↦ [] | some next ↦ round ∷ live_rounds limits next rounds ]) e

  over-few :
      (t : Timing) (rounds : List (Instant × A))
      → t.loop_counter < 2 ^ 64
      → limits.limited ≡ true
      → AreOver rounds
      → length (live_rounds limits t rounds) ≤ 49 - t.loop_counter % 50
  unfolding live_rounds
  over-few t [] word limited over = omega arith
  over-few t ((now, round) ∷ rounds) word limited (one, over) =
      elim (Option-cases (check_time limits now t)) [
        | inl ends ↦ omega (arith, ap length (live-none now round t rounds ends))
        | inr (next, goes_on) ↦ omega (
          arith,
          ap length (live-some now round t rounds goes_on),
          over-few next rounds (omega (arith, counted limits now t next goes_on)) limited over,
          over-counter limits now t next limited one word goes_on,
        )
      ]

  -- In a run of limited time, the bodies of at most 49 rounds are reached from the first round on at which
  -- the time is over and stays so.
  pub live_rounds-over :
      (t : Timing) (before after : List (Instant × A))
      → t.loop_counter < 2 ^ 64
      → limits.limited ≡ true
      → AreOver after
      → length (live_rounds limits t (before ++ after)) ≤ length before + 49
  unfolding live_rounds
  live_rounds-over t [] after word limited over = omega (arith, over-few t after word limited over)
  live_rounds-over t ((now, round) ∷ before) after word limited over =
      elim (Option-cases (check_time limits now t)) [
        | inl ends ↦ omega (arith, ap length (live-none now round t (before ++ after) ends))
        | inr (next, goes_on) ↦ omega (
          arith,
          ap length (live-some now round t (before ++ after) goes_on),
          live_rounds-over next before after (omega (arith, counted limits now t next goes_on))
              limited over,
        )
      ]

  -- Without a shutdown, and while the time is not over or not limited, the body of every round is reached.
  pub live_rounds-All :
      (t : Timing) (rounds : List (Instant × A))
      → All
          (λ r.
            (r.0.graceful_shutdown ≡ false)
            × ((limits.limited && limits.is_over r.0.current_time) ≡ false))
          rounds
      → live_rounds limits t rounds ≡ map (λ r. r.1) rounds
  unfolding live_rounds check_time
  live_rounds-All t [] still = refl
  live_rounds-All t ((now, round) ∷ rounds) ((not_asked, in_time), still) =
      elim (Option-cases (check_time limits now t)) [
        | inl ends ↦ absurd (ground (arith, not_asked, in_time, ends))
        | inr (next, goes_on) ↦
            live-some now round t rounds goes_on
            ∙ ap (λ l. round ∷ l) (live_rounds-All next rounds still)
      ]
