-- ===== src/Sort.antt =====
-- `qsort` of the C library as the programs use it, on numbers with a comparison function: its result
-- is the ordered arrangement of the array, here computed by insertion.
pub mod Laws
use trading_latency_benchmar.Prelude.{ℕ, Bool, true, false, List, [], ◌∷◌}

-- The sign of a comparison function's `int` result: -1, 0 or 1.
pub data Comparison : Type 0 where
  before same after : Comparison

module _ (compare_fn : ℕ → ℕ → Comparison) where
  unfoldable pub insert_by : ℕ → List ℕ → List ℕ
  insert_by x [] = x ∷ []
  insert_by x (y ∷ ys) =
      let further = y ∷ insert_by x ys in elim (compare_fn x y) [ after ↦ further | _ ↦ x ∷ y ∷ ys ]

  unfoldable pub qsort : List ℕ → List ℕ
  unfolding insert_by
  qsort [] = []
  qsort (x ∷ xs) = insert_by x (qsort xs)
