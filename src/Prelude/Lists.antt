-- ===== src/Prelude/Lists.antt =====
-- Lists measured and indexed by native numbers, under the library's names.
use Prim.Native.Nat.{ℕ, zero, suc, ◌+◌, ◌-◌, ◌≤◌, ◌<◌, min}
use mathlib.Core.Path.{◌≡◌, refl, sym, ap, ◌∙◌}
use mathlib.Core.Logic.{◌≢◌}
use mathlib.Core.List.{List, [], ◌∷◌, ◌++◌, map}
use mathlib.Core.Option.{Option, none, some}
use native.Mathlib.Omega.{arith}

module _ {ℓ} {A : Type ℓ} where
  abbrev pub length : List A → ℕ
  length [] = 0
  length (x ∷ xs) = suc (length xs)

  abbrev pub get_elem? : List A → ℕ → Option A
  get_elem? [] i = none
  get_elem? (x ∷ xs) zero = some x
  get_elem? (x ∷ xs) (suc i) = get_elem? xs i

  -- A write out of bounds changes nothing.
  abbrev pub set : List A → ℕ → A → List A
  set [] i v = []
  set (x ∷ xs) zero v = v ∷ xs
  set (x ∷ xs) (suc i) v = x ∷ set xs i v

  pub length-append : (xs ys : List A) → length (xs ++ ys) ≡ length xs + length ys
  length-append [] ys = omega arith
  length-append (x ∷ xs) ys = omega (arith, length-append xs ys)

module _ {ℓ} {A : Type ℓ} where
  pub length-set : (xs : List A) (i : ℕ) (v : A) → length (set xs i v) ≡ length xs
  length-set [] i v = refl
  length-set (x ∷ xs) zero v = refl
  length-set (x ∷ xs) (suc i) v = ap suc (length-set xs i v)

  pub get_elem?-set_self :
      (xs : List A) (i : ℕ) (v : A) → i < length xs → get_elem? (set xs i v) i ≡ some v
  get_elem?-set_self [] i v h = elim h [ ]
  get_elem?-set_self (x ∷ xs) zero v h = refl
  get_elem?-set_self (x ∷ xs) (suc i) v h = get_elem?-set_self xs i v (omega arith)

  pub get_elem?-set_ne :
      (xs : List A) {i j : ℕ} (v : A) → i ≢ j → get_elem? (set xs i v) j ≡ get_elem? xs j
  get_elem?-set_ne [] v h = refl
  get_elem?-set_ne (x ∷ xs) {i = zero} {j = zero} v h = absurd (h refl)
  get_elem?-set_ne (x ∷ xs) {i = zero} {j = suc j} v h = refl
  get_elem?-set_ne (x ∷ xs) {i = suc i} {j = zero} v h = refl
  get_elem?-set_ne (x ∷ xs) {i = suc i} {j = suc j} v h = get_elem?-set_ne xs v (λ e. h (ap suc e))

module _ {ℓ} {A : Type ℓ} where
  abbrev pub get_or : List A → ℕ → A → A
  get_or [] i d = d
  get_or (x ∷ xs) zero d = x
  get_or (x ∷ xs) (suc i) d = get_or xs i d

  abbrev pub take : ℕ → List A → List A
  take zero xs = []
  take (suc n) [] = []
  take (suc n) (x ∷ xs) = x ∷ take n xs

  abbrev pub drop : ℕ → List A → List A
  drop zero xs = xs
  drop (suc n) [] = []
  drop (suc n) (x ∷ xs) = drop n xs

  abbrev pub replicate : ℕ → A → List A
  replicate zero a = []
  replicate (suc n) a = a ∷ replicate n a

  pub take-append-drop : (n : ℕ) (xs : List A) → take n xs ++ drop n xs ≡ xs
  take-append-drop zero xs = refl
  take-append-drop (suc n) [] = refl
  take-append-drop (suc n) (x ∷ xs) = rw (take-append-drop n xs)

  pub take-ge : (n : ℕ) (xs : List A) → length xs ≤ n → take n xs ≡ xs
  take-ge zero [] h = refl
  take-ge zero (x ∷ xs) h = absurd (omega arith)
  take-ge (suc n) [] h = refl
  take-ge (suc n) (x ∷ xs) h = ap (λ r. x ∷ r) (take-ge n xs (omega arith))

  pub drop-ge : (n : ℕ) (xs : List A) → length xs ≤ n → drop n xs ≡ []
  drop-ge zero [] h = refl
  drop-ge zero (x ∷ xs) h = absurd (omega arith)
  drop-ge (suc n) [] h = refl
  drop-ge (suc n) (x ∷ xs) h = drop-ge n xs (omega arith)

  pub take-append :
      (n : ℕ) (xs ys : List A) → take n (xs ++ ys) ≡ take n xs ++ take (n - length xs) ys
  take-append zero xs ys = let e : 0 - length xs ≡ 0 = omega arith in ap (λ k. take k ys) (sym e)
  take-append (suc n) [] ys = let e : suc n - 0 ≡ suc n = omega arith in ap (λ k. take k ys) (sym e)
  take-append (suc n) (x ∷ xs) ys =
      let e : suc n - suc (length xs) ≡ n - length xs = omega arith in
      ap (λ r. x ∷ r) (take-append n xs ys ∙ ap (λ k. take n xs ++ take k ys) (sym e))

  pub length-take : (n : ℕ) (xs : List A) → length (take n xs) ≡ min n (length xs)
  length-take zero xs = omega arith
  length-take (suc n) [] = omega arith
  length-take (suc n) (x ∷ xs) = omega (arith, length-take n xs)

  pub length-drop : (n : ℕ) (xs : List A) → length (drop n xs) ≡ length xs - n
  length-drop zero xs = omega arith
  length-drop (suc n) [] = omega arith
  length-drop (suc n) (x ∷ xs) = omega (arith, length-drop n xs)

  pub length-replicate : (n : ℕ) (a : A) → length (replicate n a) ≡ n
  length-replicate zero a = refl
  length-replicate (suc n) a = ap suc (length-replicate n a)

  pub length-map {κ} : {B : Type κ} (xs : List A) (f : A → B) → length (map f xs) ≡ length xs
  length-map [] f = refl
  length-map (x ∷ xs) f = ap suc (length-map xs f)

  pub get_or-set_self :
      (xs : List A) (i : ℕ) (v d : A) → i < length xs → get_or (set xs i v) i d ≡ v
  get_or-set_self [] i v d h = absurd (omega arith)
  get_or-set_self (x ∷ xs) zero v d h = refl
  get_or-set_self (x ∷ xs) (suc i) v d h = get_or-set_self xs i v d (omega arith)

  pub get_or-set_ne :
      (xs : List A) (i j : ℕ) (v d : A) → i ≢ j → get_or (set xs i v) j d ≡ get_or xs j d
  get_or-set_ne [] i j v d h = refl
  get_or-set_ne (x ∷ xs) zero zero v d h = absurd (h refl)
  get_or-set_ne (x ∷ xs) zero (suc j) v d h = refl
  get_or-set_ne (x ∷ xs) (suc i) zero v d h = refl
  get_or-set_ne (x ∷ xs) (suc i) (suc j) v d h = get_or-set_ne xs i j v d (λ e. h (ap suc e))

  -- The last `n` elements, or all if there are fewer.
  abbrev pub keep_last : ℕ → List A → List A
  keep_last n xs = drop (length xs - n) xs

  drop-nil : (k : ℕ) → drop k [] ≡ []
  drop-nil zero = refl
  drop-nil (suc k) = refl

  pub drop-append : (k : ℕ) (xs ys : List A) → k ≤ length xs → drop k (xs ++ ys) ≡ drop k xs ++ ys
  drop-append zero xs ys h = refl
  drop-append (suc k) [] ys h = absurd (omega arith)
  drop-append (suc k) (x ∷ xs) ys h = drop-append k xs ys (omega arith)

  pub drop-drop : (j k : ℕ) (xs : List A) → drop j (drop k xs) ≡ drop (k + j) xs
  drop-drop j zero xs = ap (λ i. drop i xs) (omega arith)
  drop-drop j (suc k) [] = drop-nil j ∙ sym (drop-nil (suc k + j))
  drop-drop j (suc k) (x ∷ xs) =
      drop-drop j k xs
      ∙ ap (λ i. drop i (x ∷ xs)) (let e : suc (k + j) ≡ suc k + j = omega arith in e)

  -- Keeping the last elements of a part first makes no difference.
  pub keep_last-append :
      (n : ℕ) (xs ys : List A) → keep_last n (keep_last n xs ++ ys) ≡ keep_last n (xs ++ ys)
  keep_last-append n xs ys =
      let k = length xs - n in
      ap (λ zs. drop (length (drop k xs ++ ys) - n) zs) (sym (drop-append k xs ys (omega arith)))
      ∙ (drop-drop (length (drop k xs ++ ys) - n) k (xs ++ ys)
          ∙ ap (λ i. drop i (xs ++ ys))
              (omega (arith, length-append (drop k xs) ys, length-append xs ys, length-drop k xs)))

  pub length-keep_last : (n : ℕ) (xs : List A) → length (keep_last n xs) ≤ n
  length-keep_last n xs = omega (arith, length-drop (length xs - n) xs)
