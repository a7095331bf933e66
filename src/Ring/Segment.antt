-- ===== src/Ring/Segment.antt =====
-- The `k` entries of a buffer from index `t` on, going round at `n`.
use native.Mathlib.Nat.{mod-add-mod, mod-eq_of_lt, mod-eq-sub-mod}
use native.Mathlib.Decide.{dec_lt}
use trading_latency_benchmar.Prelude.{
  ℕ, zero, suc, ◌+◌, ◌-◌, ◌%◌, ◌≤◌, ◌<◌, ◌≡◌, ◌≢◌, refl, ◌∙◌, sym, ap, ap₂, arith, List, [], ◌∷◌,
  ◌++◌, length, get_or, set, length-append, get_or-set_self, get_or-set_ne, ◌⊎◌, inl, inr,
}

-- A place before the end of the buffer, or one that has gone round once.
pub place_cases :
    (n t k : ℕ)
    → t < n
    → k < n
    → ((t + k < n) × ((t + k) % n ≡ t + k)) ⊎ ((n ≤ t + k) × ((t + k) % n ≡ t + k - n))
place_cases n t k ht hk = elim (dec_lt (t + k) n) [
  | yes p ↦ inl (p, mod-eq_of_lt p)
  | no p ↦ inr (omega arith, mod-eq-sub-mod (omega arith) ∙ mod-eq_of_lt (omega arith))
]

-- Fewer than `n` places on is another place.
pub place-ne : (n t j k : ℕ) → t < n → j < k → k < n → (t + k) % n ≢ (t + j) % n
place-ne n t j k ht hj hk e =
    omega (arith, place_cases n t k ht hk, place_cases n t j ht (omega arith))

module _ {ℓ} {A : Type ℓ} (d : A) (n : ℕ) where
  abbrev pub segment : List A → ℕ → ℕ → List A
  segment buf t zero = []
  segment buf t (suc k) = segment buf t k ++ get_or buf ((t + k) % n) d ∷ []

  pub length-segment : (buf : List A) (t k : ℕ) → length (segment buf t k) ≡ k
  length-segment buf t zero = refl
  length-segment buf t (suc k) = omega (
    arith,
    length-append (segment buf t k) (get_or buf ((t + k) % n) d ∷ []),
    length-segment buf t k,
  )

  -- A write at another place leaves the segment as it is.
  pub segment-set_ne :
      (buf : List A) (t k i : ℕ) (x : A)
      → ((j : ℕ) → j < k → i ≢ (t + j) % n)
      → segment (set buf i x) t k ≡ segment buf t k
  segment-set_ne buf t zero i x h = refl
  segment-set_ne buf t (suc k) i x h =
      ap₂ (λ xs y. xs ++ y ∷ []) (segment-set_ne buf t k i x (λ j lt. h j (omega arith)))
        (get_or-set_ne buf i ((t + k) % n) x d (h k (omega arith)))

  -- A write at the place just behind the segment makes it longer by that entry.
  pub segment-set_end :
      (buf : List A) (t k : ℕ) (x : A)
      → n ≤ length buf
      → t < n
      → k < n
      → segment (set buf ((t + k) % n) x) t (suc k) ≡ segment buf t k ++ x ∷ []
  segment-set_end buf t k x hb ht hk =
      ap₂ (λ xs y. xs ++ y ∷ [])
        (segment-set_ne buf t k ((t + k) % n) x (λ j lt. place-ne n t j k ht lt hk))
        (get_or-set_self buf ((t + k) % n) x d (omega (arith, place_cases n t k ht hk)))

  -- The first entry, and the segment from the next place.
  pub segment_first :
      (buf : List A) (t k : ℕ)
      → t < n
      → segment buf t (suc k) ≡ get_or buf t d ∷ segment buf ((t + 1) % n) k
  segment_first buf t zero ht =
      let here : (t + 0) % n ≡ t = omega (arith, place_cases n t 0 ht (omega arith)) in
      ap (λ i. get_or buf i d ∷ []) here
  segment_first buf t (suc k) ht =
      ap₂ ◌++◌ (segment_first buf t k ht)
        (ap (λ i. get_or buf i d ∷ []) (ap (λ i. i % n) further ∙ sym (mod-add-mod (t + 1) n k)))
    where
      further : t + suc k ≡ t + 1 + k
      further = omega arith
