-- ===== src/Stats/Percentile/Order/Interpolation.antt =====
-- The interpolation of `exact_percentiles_get` of src/timestamp_common.c between the values around a place.
use trading_latency_benchmar.Prelude.{
  ℕ, ◌+◌, ◌-◌, ◌*◌, ◌/◌, ◌%◌, ◌≤◌, ◌<◌, ◌≡◌, ◌↔◌, refl, ◌∙◌, ap, ap₂, arith, List, get_or, inl, inr,
  ◌⊎◌,
}
use native.Mathlib.Decide.{dec_lt, ℕ_discrete}
use trading_latency_benchmar.Sort.{after}
use trading_latency_benchmar.Stats.Percentile.{compare_double_deltas, interpolate}

pub compare_double_deltas-after : (a b : ℕ) → (compare_double_deltas a b ≡ after) ↔ (b < a)
unfolding compare_double_deltas
compare_double_deltas-after a b = ground arith

-- Values that grow along the first `n` places.
abbrev pub Grows : List ℕ → ℕ → Type 0
Grows vs n = (i j : ℕ) → i ≤ j → j < n → get_or vs i 0 ≤ get_or vs j 0

pos-le : (n percent : ℕ) → percent ≤ 100 → percent * (n - 1) ≤ 100 * (n - 1)
pos-le n percent h = grind arith

pos_mono : (n p q : ℕ) → p ≤ q → p * (n - 1) ≤ q * (n - 1)
pos_mono n p q h = grind arith

-- A percentile at a whole place is the value there.
interpolate-whole :
    (vs : List ℕ) (n percent f : ℕ)
    → percent * (n - 1) ≡ 100 * f
    → interpolate vs n percent ≡ 100 * get_or vs f 0
unfolding interpolate
interpolate-whole vs n percent f e =
    let low : percent * (n - 1) / 100 ≡ f = omega arith in
    let high : (percent * (n - 1) + 99) / 100 ≡ f = omega arith in rw (low, high) (ground arith)

-- A percentile between two places lies between their values, in proportion.
interpolate-between :
    (vs : List ℕ) (n percent f r : ℕ)
    → percent * (n - 1) ≡ 100 * f + r
    → 0 < r
    → r < 100
    → f + 1 < n
    → interpolate vs n percent ≡ 100 * get_or vs f 0 + r * (get_or vs (f + 1) 0 - get_or vs f 0)
unfolding interpolate
interpolate-between vs n percent f r e pos less room =
    let low : percent * (n - 1) / 100 ≡ f = omega arith in
    let high : (percent * (n - 1) + 99) / 100 ≡ f + 1 = omega arith in
    let part : percent * (n - 1) - 100 * f ≡ r = omega arith in rw (low, high, part) (ground arith)

-- The whole places that enclose a percentile, and its value there.
record Place (vs : List ℕ) (n percent : ℕ) : Type 0 where
  floor : ℕ
  ceiling : ℕ
  part : ℕ
  part_in : part < 100
  position : percent * (n - 1) ≡ 100 * floor + part
  ceiling_in : ceiling < n
  ceiling_is : (part ≡ 0) × (ceiling ≡ floor) ⊎ (0 < part) × (ceiling ≡ floor + 1)
  value :
      interpolate vs n percent
      ≡ 100 * get_or vs floor 0 + part * (get_or vs ceiling 0 - get_or vs floor 0)

interpolate-Place : (vs : List ℕ) (n percent : ℕ) → 0 < n → percent ≤ 100 → Place vs n percent
interpolate-Place vs n percent pos h =
    let at = percent * (n - 1) in
    let f = at / 100 in
    let r = at % 100 in
    let bound = pos-le n percent h in
    elim (ℕ_discrete r 0) [
      | yes whole ↦ record {
        floor = f;
        ceiling = f;
        part = 0;
        part_in = omega arith;
        position = omega arith;
        ceiling_in = omega arith;
        ceiling_is = inl (refl, refl);
        value = interpolate-whole vs n percent f (omega arith) ∙ omega arith;
      }
      | no between ↦ record {
        floor = f;
        ceiling = f + 1;
        part = r;
        part_in = omega arith;
        position = omega arith;
        ceiling_in = omega arith;
        ceiling_is = inr (omega arith, refl);
        value =
            interpolate-between vs n percent f r (omega arith) (omega arith) (omega arith)
              (omega arith);
      }
    ]

-- An interpolated value lies between its neighbours.
mix-le : (a b r : ℕ) → a ≤ b → r ≤ 100 → 100 * a + r * (b - a) ≤ 100 * b
mix-le a b r h k = grind arith

module _ (vs : List ℕ) (n : ℕ) (grows : Grows vs n) (pos : 0 < n) where
  -- The value at a place lies between those of the neighbours.
  Place-bounds :
      {p : ℕ} (a : Place vs n p)
      → (100 * get_or vs a.floor 0 ≤ interpolate vs n p)
        × (interpolate vs n p ≤ 100 * get_or vs a.ceiling 0)
  Place-bounds a =
      let ord : get_or vs a.floor 0 ≤ get_or vs a.ceiling 0 =
        grows a.floor a.ceiling (omega (arith, a.ceiling_is)) a.ceiling_in in
      (
        omega (arith, a.value),
        omega (
          arith,
          a.value,
          mix-le (get_or vs a.floor 0) (get_or vs a.ceiling 0) a.part ord
              (omega (arith, a.part_in)),
        ),
      )

  Place-same_floor :
      {p q : ℕ} (a : Place vs n p) (b : Place vs n q)
      → a.floor ≡ b.floor
      → a.part ≤ b.part
      → interpolate vs n p ≤ interpolate vs n q
  Place-same_floor {p} {q} a b e le = elim (ℕ_discrete a.part 0) [
    | yes whole ↦ omega (
      arith,
      a.value,
      ap (λ k. k * (get_or vs a.ceiling 0 - get_or vs a.floor 0)) whole,
      ap (λ k. get_or vs k 0) e,
      (Place-bounds b).0,
    )
    | no between ↦
        let same : a.ceiling ≡ b.ceiling = omega (arith, a.ceiling_is, b.ceiling_is) in
        let d = get_or vs b.ceiling 0 - get_or vs b.floor 0 in
        let scaled : a.part * d ≤ b.part * d = grind arith in
        omega (
          arith,
          scaled,
          a.value
              ∙ ap₂ (λ f c. 100 * get_or vs f 0 + a.part * (get_or vs c 0 - get_or vs f 0)) e same,
          b.value,
        )
  ]

  pub interpolate_mono : (p q : ℕ) → p ≤ q → q ≤ 100 → interpolate vs n p ≤ interpolate vs n q
  interpolate_mono p q h k =
      let a = interpolate-Place vs n p pos (omega arith) in
      let b = interpolate-Place vs n q pos k in
      let far = pos_mono n p q h in
      elim (dec_lt a.floor b.floor) [
        | yes less ↦ omega (
          arith,
          (Place-bounds a).1,
          (Place-bounds b).0,
          grows a.ceiling b.floor (omega (arith, a.ceiling_is))
              (omega (arith, b.ceiling_is, b.ceiling_in)),
        )
        | no same ↦
            Place-same_floor a b (omega (arith, a.position, b.position, a.part_in, b.part_in))
              (omega (arith, a.position, b.position, a.part_in, b.part_in))
      ]

  pub interpolate_bounds :
      (p : ℕ)
      → p ≤ 100
      → (100 * get_or vs 0 0 ≤ interpolate vs n p)
        × (interpolate vs n p ≤ 100 * get_or vs (n - 1) 0)
  interpolate_bounds p h =
      let a = interpolate-Place vs n p pos h in
      let (low, high) = Place-bounds a in
      (
        omega
            (arith, low, grows 0 a.floor (omega arith) (omega (arith, a.ceiling_is, a.ceiling_in))),
        omega (arith, high, grows a.ceiling (n - 1) (omega (arith, a.ceiling_in)) (omega arith)),
      )
