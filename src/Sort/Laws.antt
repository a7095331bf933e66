-- ===== src/Sort/Laws.antt =====
-- The order of an array and the number of times that it holds a number, for `qsort`.
use trading_latency_benchmar.Prelude.{
  ℕ, zero, suc, ◌+◌, ◌≤◌, ◌<◌, ◌≡◌, ◌↔◌, refl, ◌∙◌, ap, arith, List, [], ◌∷◌, length, get_or, ◌==◌,
  if◌then◌else◌, All, ◌⊎◌,
}
use trading_latency_benchmar.Sort.{Comparison, after, insert_by, qsort}

-- No element is below the first, and so on along the list.
abbrev pub IsSorted : List ℕ → Type 0
IsSorted [] = Unit
IsSorted (x ∷ xs) = All (λ y. x ≤ y) xs × IsSorted xs

-- Every element is above those before it.
abbrev pub IsIncreasing : List ℕ → Type 0
IsIncreasing [] = Unit
IsIncreasing (x ∷ xs) = All (λ y. x < y) xs × IsIncreasing xs

abbrev pub count : ℕ → List ℕ → ℕ
count a [] = 0
count a (x ∷ xs) = (if x == a then 1 else 0) + count a xs

pub All-le_trans : (x y : ℕ) (zs : List ℕ) → x ≤ y → All (λ z. y ≤ z) zs → All (λ z. x ≤ z) zs
All-le_trans x y [] h a = tt
All-le_trans x y (z ∷ zs) h (a, rest) = (omega arith, All-le_trans x y zs h rest)

module _ (compare_fn : ℕ → ℕ → Comparison)
    (law : (x y : ℕ) → (compare_fn x y ≡ after) ↔ (y < x)) where
  Comparison-cases : (x y : ℕ) → (compare_fn x y ≡ after) ⊎ (x ≤ y)
  Comparison-cases x y = ground (arith, law x y)

  insert_by-All :
      (z x : ℕ) (ys : List ℕ)
      → z ≤ x
      → All (λ y. z ≤ y) ys
      → All (λ y. z ≤ y) (insert_by compare_fn x ys)
  unfolding insert_by
  insert_by-All z x [] h a = (h, tt)
  insert_by-All z x (y ∷ ys) h (a, rest) = ground (arith, insert_by-All z x ys h rest)

  insert_by-IsSorted : (x : ℕ) (ys : List ℕ) → IsSorted ys → IsSorted (insert_by compare_fn x ys)
  unfolding insert_by
  insert_by-IsSorted x [] s = (tt, tt)
  insert_by-IsSorted x (y ∷ ys) (a, s) =
      ground
        (arith, law x y, insert_by-IsSorted x ys s, insert_by-All y x ys, All-le_trans x y ys, a)

  pub qsort-IsSorted : (xs : List ℕ) → IsSorted (qsort compare_fn xs)
  unfolding qsort
  qsort-IsSorted [] = tt
  qsort-IsSorted (x ∷ xs) = insert_by-IsSorted x (qsort compare_fn xs) (qsort-IsSorted xs)

  insert_by-count :
      (a x : ℕ) (ys : List ℕ)
      → count a (insert_by compare_fn x ys) ≡ (if x == a then 1 else 0) + count a ys
  unfolding insert_by
  insert_by-count a x [] = refl
  insert_by-count a x (y ∷ ys) = ground (arith, insert_by-count a x ys)

  pub qsort-count : (a : ℕ) (xs : List ℕ) → count a (qsort compare_fn xs) ≡ count a xs
  unfolding qsort
  qsort-count a [] = refl
  qsort-count a (x ∷ xs) =
      omega (arith, insert_by-count a x (qsort compare_fn xs), qsort-count a xs)

  insert_by-length : (x : ℕ) (ys : List ℕ) → length (insert_by compare_fn x ys) ≡ suc (length ys)
  unfolding insert_by
  insert_by-length x [] = refl
  insert_by-length x (y ∷ ys) = ground (arith, insert_by-length x ys)

  pub length-qsort : (xs : List ℕ) → length (qsort compare_fn xs) ≡ length xs
  unfolding qsort
  length-qsort [] = refl
  length-qsort (x ∷ xs) = insert_by-length x (qsort compare_fn xs) ∙ ap suc (length-qsort xs)

All-at : (x : ℕ) (ys : List ℕ) (j : ℕ) → All (λ y. x ≤ y) ys → j < length ys → x ≤ get_or ys j 0
All-at x [] j a h = absurd (omega arith)
All-at x (y ∷ ys) zero a h = a.0
All-at x (y ∷ ys) (suc j) a h = All-at x ys j a.1 (omega arith)

-- In a sorted list a later place holds no smaller number.
pub IsSorted-get_or :
    (xs : List ℕ) (i j : ℕ) → IsSorted xs → i ≤ j → j < length xs → get_or xs i 0 ≤ get_or xs j 0
IsSorted-get_or [] i j s h lt = absurd (omega arith)
IsSorted-get_or (x ∷ xs) zero zero s h lt = omega arith
IsSorted-get_or (x ∷ xs) zero (suc j) s h lt = All-at x xs j s.0 (omega arith)
IsSorted-get_or (x ∷ xs) (suc i) zero s h lt = absurd (omega arith)
IsSorted-get_or (x ∷ xs) (suc i) (suc j) s h lt =
    IsSorted-get_or xs i j s.1 (omega arith) (omega arith)

-- Sorted, and no number twice.
increasing_tail : (x : ℕ) (ys : List ℕ) → All (λ y. x ≤ y) ys → count x ys ≡ 0 → All (λ y. x < y) ys
increasing_tail x [] a h = tt
increasing_tail x (y ∷ ys) (le, a) h = (ground arith, increasing_tail x ys a (ground arith))

pub IsSorted-IsIncreasing :
    (xs : List ℕ) → IsSorted xs → ((a : ℕ) → count a xs ≤ 1) → IsIncreasing xs
IsSorted-IsIncreasing [] s once = tt
IsSorted-IsIncreasing (x ∷ xs) (a, s) once = (
  increasing_tail x xs a (ground (arith, once x)),
  IsSorted-IsIncreasing xs s (λ b. omega (arith, once b)),
)
