-- ===== src/Ring/Ends.antt =====
-- The two ends of a ring buffer that one thread fills and another empties: the producer's index `h` and
-- the consumer's index `t`, and the test that each side makes.
use native.Mathlib.Decide.{ℕ_discrete}
use trading_latency_benchmar.Prelude.{
  ℕ, ◌+◌, ◌≤◌, ◌≡◌, ◌≢◌, ◌∙◌, sym, ap, arith, true, false, ltb, List, [], ◌∷◌, ◌++◌, length, get_or,
  set, ◌⊎◌, inl, inr,
}
use trading_latency_benchmar.Ring.Index.{IsMask, next_index, index_distance}
use trading_latency_benchmar.Ring.Segment.{segment}
use trading_latency_benchmar.Ring.Contents.{
  contents, length-contents, contents_push, contents_pop, contents_empty, distance_full,
  distance-next_head, index_distance-le,
}

module _ {ℓ} {A : Type ℓ} {mask : ℕ} (m : IsMask mask) (d : A) (buf : List A) (h t : ℕ)
    (hh : h ≤ mask) (ht : t ≤ mask) where
  -- A full buffer, or one with room, in which a written entry is the last.
  pub push_cases :
      (x : A)
      → mask + 1 ≤ length buf
      → ((next_index mask h ≡ t) × (ltb (length (contents m d buf h t)) mask ≡ false))
        ⊎ ((next_index mask h ≢ t)
            × (ltb (length (contents m d buf h t)) mask ≡ true)
            × (contents m d (set buf h x) (next_index mask h) t ≡ contents m d buf h t ++ x ∷ []))
  push_cases x sized =
      let size = length-contents m d buf h t in
      elim (ℕ_discrete (next_index mask h) t) [
        | yes full ↦ inl (full, ground (arith, size, distance_full m h t hh ht full))
        | no room ↦ inr (
          room,
          ground (
            arith,
            size,
            distance-next_head m h t hh ht room,
            index_distance-le m (next_index mask h) t ht,
          ),
          contents_push m d buf h t x sized hh ht room,
        )
      ]

  -- An empty buffer, or one with a first entry.
  pub pop_cases :
      ((t ≡ h) × (contents m d buf h t ≡ []))
      ⊎ ((t ≢ h) × (contents m d buf h t ≡ get_or buf t d ∷ contents m d buf h (next_index mask t)))
  pop_cases = elim (ℕ_discrete t h) [
    | yes none_left ↦ inl (
      none_left,
      ap (λ k. segment d (mask + 1) buf t (index_distance mask k t)) (sym none_left)
          ∙ contents_empty m d buf t ht,
    )
    | no some_left ↦ inr (some_left, contents_pop m d buf h t hh ht (ground (arith, some_left)))
  ]
