-- ===== src/Prelude/Bits.antt =====
-- The binary digits of machine words.
use Prim.Native.Nat.{
  ℕ, zero, suc, ◌+◌, ◌*◌, ◌/◌, ◌%◌, ◌^◌, ◌≤◌, min, max, bit_and, bit_or, digits, bit_or-bitwise,
}
use mathlib.Core.Path.{◌≡◌, refl, ap, ap₂, ◌∙◌}
use native.Mathlib.Omega.{arith}
use native.Mathlib.Nat.{pow-suc}
use trading_latency_benchmar.Prelude.Tests.{◌==◌, if◌then◌else◌}
use trading_latency_benchmar.Prelude.Words.{bit_and-halves, bit_and-mask}

-- The digit recursion that `bit_or` stands for, with its fuel apart.
abbrev joined_digits : ℕ → ℕ → ℕ → ℕ
joined_digits fuel a b = digits (λ b. b) max fuel a b

joined_digits_fuel : (f g a b : ℕ) → a ≤ f → a ≤ g → joined_digits f a b ≡ joined_digits g a b
joined_digits_fuel zero zero a b p q = refl
joined_digits_fuel zero (suc g) zero b p q = refl
joined_digits_fuel zero (suc g) (suc a) b p q = absurd (omega arith)
joined_digits_fuel (suc f) zero zero b p q = refl
joined_digits_fuel (suc f) zero (suc a) b p q = absurd (omega arith)
joined_digits_fuel (suc f) (suc g) zero b p q = refl
joined_digits_fuel (suc f) (suc g) (suc a) b p q =
    omega (arith, joined_digits_fuel f g (suc a / 2) (b / 2) (omega arith) (omega arith))

bit_or_zero : (b : ℕ) → bit_or 0 b ≡ b
bit_or_zero b = bit_or-bitwise 0 b

-- One digit of a disjunction.
bit_or-halves : (a b : ℕ) → bit_or a b ≡ 2 * bit_or (a / 2) (b / 2) + max (a % 2) (b % 2)
bit_or-halves zero b = omega (arith, bit_or_zero b, bit_or_zero (b / 2))
bit_or-halves (suc a) b = omega (
  arith,
  bit_or-bitwise (suc a) b,
  bit_or-bitwise (suc a / 2) (b / 2),
  joined_digits_fuel a (suc a / 2) (suc a / 2) (b / 2) (omega arith) (omega arith),
)

-- A digit, from the lowest on.
unfoldable pub bit : ℕ → ℕ → ℕ
bit zero n = n % 2
bit (suc c) n = bit c (n / 2)

pub bit-and : (c a b : ℕ) → bit c (bit_and a b) ≡ min (bit c a) (bit c b)
unfolding bit
bit-and zero a b = omega (arith, bit_and-halves a b)
bit-and (suc c) a b =
    let half : bit_and a b / 2 ≡ bit_and (a / 2) (b / 2) = omega (arith, bit_and-halves a b) in
    ap (bit c) half ∙ bit-and c (a / 2) (b / 2)

pub bit-or : (c a b : ℕ) → bit c (bit_or a b) ≡ max (bit c a) (bit c b)
unfolding bit
bit-or zero a b = omega (arith, bit_or-halves a b)
bit-or (suc c) a b =
    let half : bit_or a b / 2 ≡ bit_or (a / 2) (b / 2) = omega (arith, bit_or-halves a b) in
    ap (bit c) half ∙ bit-or c (a / 2) (b / 2)

pub bit-le : (c n : ℕ) → bit c n ≤ 1
unfolding bit
bit-le zero n = omega arith
bit-le (suc c) n = bit-le c (n / 2)

bit-zero : (c : ℕ) → bit c 0 ≡ 0
unfolding bit
bit-zero zero = refl
bit-zero (suc c) = bit-zero c

-- The digits of a power of two.
pub bit-pow : (c k : ℕ) → bit c (2 ^ k) ≡ (if c == k then 1 else 0)
unfolding bit
bit-pow zero zero = refl
bit-pow zero (suc k) = ground (arith, pow-suc 2 k)
bit-pow (suc c) zero = bit-zero c ∙ ground arith
bit-pow (suc c) (suc k) =
    let half : 2 ^ suc k / 2 ≡ 2 ^ k = omega (arith, pow-suc 2 k) in
    ap (bit c) half ∙ (bit-pow c k ∙ ground arith)

-- `n & (1 << c)` keeps one digit at its place.
pub bit_and-pow : (c n : ℕ) → bit_and n (2 ^ c) ≡ bit c n * 2 ^ c
unfolding bit
bit_and-pow zero n = omega (arith, bit_and-mask 1 n)
bit_and-pow (suc c) n =
    let half : 2 ^ suc c / 2 ≡ 2 ^ c = omega (arith, pow-suc 2 c) in
    let low : 2 ^ suc c % 2 ≡ 0 = omega (arith, pow-suc 2 c) in
    bit_and-halves n (2 ^ suc c)
    ∙ (ap₂ (λ a b. 2 * bit_and (n / 2) a + min (n % 2) b) half low
        ∙ (ap (λ a. 2 * a + min (n % 2) 0) (bit_and-pow c (n / 2))
            ∙ (regroup (bit c (n / 2)) (2 ^ c) (n % 2) ∙ ap (λ p. bit c (n / 2) * p) (shuffle c))))
  where
    regroup : (x p r : ℕ) → 2 * (x * p) + min r 0 ≡ x * (2 * p)
    regroup x p r = grind arith

    shuffle : (c : ℕ) → 2 * 2 ^ c ≡ 2 ^ suc c
    shuffle c = omega (arith, pow-suc 2 c)
