-- ===== src/Ring/Contents.antt =====
-- What a ring buffer holds: the entries from the consumer's index up to the producer's, and how a
-- write, a step of either index and both at once change it.
use native.Mathlib.Nat.{mod-lt, mod-eq_of_lt, mod_self, add-mod_right}
use native.Mathlib.Decide.{dec_lt}
use trading_latency_benchmar.Prelude.{
  ℕ, suc, ◌+◌, ◌-◌, ◌%◌, ◌≤◌, ◌<◌, ◌≡◌, ◌≢◌, ◌∙◌, sym, ap, arith, List, [], ◌∷◌, ◌++◌, length,
  get_or, set, drop, inl, inr, ◌⊎◌,
}
use trading_latency_benchmar.Ring.Index.{
  IsMask, next_index, index_distance, next_index-mod, index_distance-mod,
}
use trading_latency_benchmar.Ring.Segment.{
  segment, length-segment, segment-set_end, segment_first, place_cases,
}

module _ {mask : ℕ} (m : IsMask mask) where
  pub next_index-le : (i : ℕ) → next_index mask i ≤ mask
  next_index-le i = omega (arith, next_index-mod m i, mod-lt (i + 1) {m = mask + 1} (omega arith))

  pub index_distance-le : (h t : ℕ) → t ≤ mask → index_distance mask h t ≤ mask
  index_distance-le h t ht =
      omega (
        arith,
        index_distance-mod m h t ht,
        mod-lt (h + (mask + 1) - t) {m = mask + 1} (omega arith),
      )

  -- The next index, where it does not go round and where it does.
  pub next_cases :
      (i : ℕ)
      → i ≤ mask
      → ((i < mask) × (next_index mask i ≡ i + 1)) ⊎ ((i ≡ mask) × (next_index mask i ≡ 0))
  next_cases i h = elim (dec_lt i mask) [
    | yes p ↦ inl (p, next_index-mod m i ∙ mod-eq_of_lt (omega arith))
    | no p ↦
        let last : i ≡ mask = omega arith in
        inr (last, next_index-mod m i ∙ (ap (λ k. (k + 1) % (mask + 1)) last ∙ mod_self (mask + 1)))
  ]

  -- The distance of two indices, in either order.
  pub distance_cases :
      (h t : ℕ)
      → h ≤ mask
      → t ≤ mask
      → ((t ≤ h) × (index_distance mask h t ≡ h - t))
        ⊎ ((h < t) × (index_distance mask h t ≡ h + (mask + 1) - t))
  distance_cases h t hh ht = elim (dec_lt h t) [
    | yes p ↦ inr (p, index_distance-mod m h t ht ∙ mod-eq_of_lt (omega arith))
    | no p ↦
        let round : h + (mask + 1) - t ≡ (h - t) + (mask + 1) = omega arith in
        inl (
          omega arith,
          index_distance-mod m h t ht
              ∙ (ap (λ k. k % (mask + 1)) round
                  ∙ (add-mod_right (h - t) (mask + 1) ∙ mod-eq_of_lt (omega arith))),
        )
  ]

  -- The producer's index lies as far behind the consumer's as the distance says.
  pub head_place : (h t : ℕ) → h ≤ mask → t ≤ mask → (t + index_distance mask h t) % (mask + 1) ≡ h
  head_place h t hh ht = omega (
    arith,
    distance_cases h t hh ht,
    place_cases (mask + 1) t (index_distance mask h t) (omega arith)
        (omega (arith, index_distance-le h t ht)),
  )

  pub distance_self : (t : ℕ) → t ≤ mask → index_distance mask t t ≡ 0
  distance_self t ht = omega (arith, distance_cases t t ht ht)

  -- Indices apart are some distance apart.
  pub distance_pos : (h t : ℕ) → h ≤ mask → t ≤ mask → h ≢ t → 0 < index_distance mask h t
  distance_pos h t hh ht ne = omega (arith, distance_cases h t hh ht)

  pub distance-next_head :
      (h t : ℕ)
      → h ≤ mask
      → t ≤ mask
      → next_index mask h ≢ t
      → index_distance mask (next_index mask h) t ≡ suc (index_distance mask h t)
  distance-next_head h t hh ht ne = omega (
    arith,
    next_cases h hh,
    distance_cases h t hh ht,
    distance_cases (next_index mask h) t (next_index-le h) ht,
  )

  pub distance-next_tail :
      (h t : ℕ)
      → h ≤ mask
      → t ≤ mask
      → h ≢ t
      → index_distance mask h t ≡ suc (index_distance mask h (next_index mask t))
  distance-next_tail h t hh ht ne = omega (
    arith,
    next_cases t ht,
    distance_cases h t hh ht,
    distance_cases h (next_index mask t) hh (next_index-le t),
  )

  -- A ring whose next index is the consumer's holds `mask` entries.
  pub distance_full :
      (h t : ℕ) → h ≤ mask → t ≤ mask → next_index mask h ≡ t → index_distance mask h t ≡ mask
  distance_full h t hh ht full = omega (arith, next_cases h hh, distance_cases h t hh ht)

  module _ {ℓ} {A : Type ℓ} (d : A) where
    abbrev pub contents : List A → ℕ → ℕ → List A
    contents buf h t = segment d (mask + 1) buf t (index_distance mask h t)

    pub length-contents :
        (buf : List A) (h t : ℕ) → length (contents buf h t) ≡ index_distance mask h t
    length-contents buf h t = length-segment d (mask + 1) buf t (index_distance mask h t)

    -- A write at the producer's index, published, adds the entry at the end.
    pub contents_push :
        (buf : List A) (h t : ℕ) (x : A)
        → mask + 1 ≤ length buf
        → h ≤ mask
        → t ≤ mask
        → next_index mask h ≢ t
        → contents (set buf h x) (next_index mask h) t ≡ contents buf h t ++ x ∷ []
    contents_push buf h t x hb hh ht ne =
        let k = index_distance mask h t in
        let n = mask + 1 in
        ap (segment d n (set buf h x) t) (distance-next_head h t hh ht ne)
        ∙ (ap (λ i. segment d n (set buf i x) t (suc k)) (sym (head_place h t hh ht))
            ∙ segment-set_end d n buf t k x hb (omega arith)
                (omega (arith, index_distance-le h t ht)))

    -- The consumer's index stands at the first entry, and its step takes that entry away.
    pub contents_pop :
        (buf : List A) (h t : ℕ)
        → h ≤ mask
        → t ≤ mask
        → h ≢ t
        → contents buf h t ≡ get_or buf t d ∷ contents buf h (next_index mask t)
    contents_pop buf h t hh ht ne =
        let n = mask + 1 in
        let k = index_distance mask h (next_index mask t) in
        ap (segment d n buf t) (distance-next_tail h t hh ht ne)
        ∙ (segment_first d n buf t k (omega arith)
            ∙ ap (λ i. get_or buf t d ∷ segment d n buf i k) (sym (next_index-mod m t)))

    pub contents_empty : (buf : List A) (t : ℕ) → t ≤ mask → contents buf t t ≡ []
    contents_empty buf t ht = ap (segment d (mask + 1) buf t) (distance_self t ht)

    next_full-ne :
        (h t : ℕ)
        → h ≤ mask
        → t ≤ mask
        → 0 < mask
        → next_index mask h ≡ t
        → (h ≢ t) × (next_index mask h ≢ next_index mask t)
    next_full-ne h t hh ht pos full =
        (λ e. omega (arith, next_cases h hh), λ e. omega (arith, next_cases t ht))

    -- A write into a full ring, with both indices moved, drops the first entry for the new one.
    pub contents_overwrite :
        (buf : List A) (h t : ℕ) (x : A)
        → mask + 1 ≤ length buf
        → h ≤ mask
        → t ≤ mask
        → next_index mask h ≡ t
        → contents (set buf h x) (next_index mask h) (next_index mask t)
          ≡ drop 1 (contents buf h t ++ x ∷ [])
    contents_overwrite buf h t x hb hh ht full = elim (dec_lt 0 mask) [
      | yes pos ↦
          let (apart, room) = next_full-ne h t hh ht pos full in
          contents_push buf h (next_index mask t) x hb hh (next_index-le t) room
          ∙ sym (ap (λ c. drop 1 (c ++ x ∷ [])) (contents_pop buf h t hh ht apart))
      | no single ↦
          let gone : index_distance mask (next_index mask h) (next_index mask t) ≡ 0 =
            omega (
              arith,
              index_distance-le (next_index mask h) (next_index mask t) (next_index-le t),
            ) in
          let none_held : index_distance mask h t ≡ 0 = omega (arith, index_distance-le h t ht) in
          ap (segment d (mask + 1) (set buf h x) (next_index mask t)) gone
          ∙ sym (ap (λ k. drop 1 (segment d (mask + 1) buf t k ++ x ∷ [])) none_held)
    ]
