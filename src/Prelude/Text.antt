-- ===== src/Prelude/Text.antt =====
-- C strings as lists of character codes. The terminating zero is the end of the list.
use Prim.Native.Nat.{ℕ, ◌≤◌, ◌+◌, ◌*◌}
use trading_latency_benchmar.Prelude.Lists.{get_or}
use Prim.Native.Char.{code}
use Prim.Native.String.{String}
use mathlib.Core.Bool.{Bool, true, false, ◌&&◌}
use mathlib.Core.List.{List, [], ◌∷◌, ◌++◌}
use mathlib.Core.Logic.{◌↔◌, ◌≢◌}
use mathlib.Core.Path.{◌≡◌}
use native.Mathlib.Omega.{arith}
use trading_latency_benchmar.Prelude.Tests.{◌==◌}

abbrev pub Bytes : Type 0
Bytes = List ℕ

-- The codes of a literal, which are its bytes when the text is ASCII.
abbrev pub codes : String → Bytes
codes String.[] = []
codes (String.◌∷◌ c s) = code c ∷ codes s

-- strcmp(s, t) == 0
abbrev pub str_eq : Bytes → Bytes → Bool
str_eq [] [] = true
str_eq [] (d ∷ t) = false
str_eq (c ∷ s) [] = false
str_eq (c ∷ s) (d ∷ t) = c == d && str_eq s t

pub str_eq_iff : (s t : Bytes) → (str_eq s t ≡ true) ↔ (s ≡ t)
str_eq_iff [] [] = ground arith
str_eq_iff [] (d ∷ t) = ground arith
str_eq_iff (c ∷ s) [] = ground arith
str_eq_iff (c ∷ s) (d ∷ t) = ground (arith, str_eq_iff s t)

module _ {ℓ κ} {A : Type ℓ} (P : A → Type κ) where
  abbrev pub All : List A → Type κ
  All [] = Unit
  All (x ∷ xs) = P x × All xs

  pub All-append : (xs ys : List A) → All xs → All ys → All (xs ++ ys)
  All-append [] ys _ hy = hy
  All-append (x ∷ xs) ys (px, hx) hy = (px, All-append xs ys hx hy)

-- No element is the byte `b`.
abbrev pub Lacks : ℕ → Bytes → Type 0
Lacks b = All (λ c. c ≢ b)

abbrev pub IsDigit : ℕ → Type 0
IsDigit c = (b'0' ≤ c) × (c ≤ b'9')

-- ntohl of the four bytes from a place on.
abbrev pub read_u32 : Bytes → ℕ → ℕ
read_u32 bytes i =
    16777216 * get_or bytes i 0
    + 65536 * get_or bytes (i + 1) 0
    + 256 * get_or bytes (i + 2) 0
    + get_or bytes (i + 3) 0
