-- ===== src/Prelude/Words.antt =====
-- Unsigned machine words: `& mask` for a mask of ones is a remainder, at every width.
use Prim.Native.Nat.{
  ℕ, zero, suc, ◌+◌, ◌-◌, ◌*◌, ◌/◌, ◌%◌, ◌^◌, ◌≤◌, ◌<◌, ◌∣◌, min, bit_and, digits, bit_and-bitwise,
}
use mathlib.Core.Path.{◌≡◌, refl, ap, ◌∙◌}
use native.Mathlib.Omega.{arith}
use native.Mathlib.Nat.{
  pow-suc, mod-lt, mod-eq_of_lt, div-add-mod, add-mul-mod_self_left, mod-mod_of_dvd, dvd_refl,
  dvd-mul_right_of_dvd,
}

-- The digit recursion that `bit_and` stands for, with its fuel apart.
abbrev common_digits : ℕ → ℕ → ℕ → ℕ
common_digits fuel a b = digits (λ _. zero) min fuel a b

-- Any fuel that is no less than the first word gives the same digits.
common_digits_fuel : (f g a b : ℕ) → a ≤ f → a ≤ g → common_digits f a b ≡ common_digits g a b
common_digits_fuel zero zero a b p q = refl
common_digits_fuel zero (suc g) zero b p q = refl
common_digits_fuel zero (suc g) (suc a) b p q = absurd (omega arith)
common_digits_fuel (suc f) zero zero b p q = refl
common_digits_fuel (suc f) zero (suc a) b p q = absurd (omega arith)
common_digits_fuel (suc f) (suc g) zero b p q = refl
common_digits_fuel (suc f) (suc g) (suc a) b p q =
    omega (arith, common_digits_fuel f g (suc a / 2) (b / 2) (omega arith) (omega arith))

no_digits : (b : ℕ) → bit_and 0 b ≡ 0
no_digits b = bit_and-bitwise 0 b

-- One digit of a conjunction.
pub bit_and-halves : (a b : ℕ) → bit_and a b ≡ 2 * bit_and (a / 2) (b / 2) + min (a % 2) (b % 2)
bit_and-halves zero b = omega (arith, no_digits b, no_digits (b / 2))
bit_and-halves (suc a) b = omega (
  arith,
  bit_and-bitwise (suc a) b,
  bit_and-bitwise (suc a / 2) (b / 2),
  common_digits_fuel a (suc a / 2) (suc a / 2) (b / 2) (omega arith) (omega arith),
)

no_digits_right : (f a : ℕ) → a ≤ f → bit_and a 0 ≡ 0
no_digits_right f zero h = no_digits 0
no_digits_right zero (suc a) h = absurd (omega arith)
no_digits_right (suc f) (suc a) h =
    omega (arith, bit_and-halves (suc a) 0, no_digits_right f (suc a / 2) (omega arith))

pub pow-pos : (w : ℕ) → 1 ≤ 2 ^ w
pow-pos zero = omega arith
pow-pos (suc w) = omega (arith, pow-suc 2 w, pow-pos w)

-- The remainder by an even number, digit by digit.
mod-double : (p x : ℕ) → 1 ≤ p → x % (p * 2) ≡ 2 * (x / 2 % p) + x % 2
mod-double p x h =
    let q = x / 2 in
    let r = 2 * (q % p) + x % 2 in
    let small : r < p * 2 = omega (arith, mod-lt q h) in
    let split : x ≡ r + p * 2 * (q / p) = omega (arith, div-add-mod q p) in
    (ap (λ k. k % (p * 2)) split ∙ add-mul-mod_self_left r (p * 2) (q / p)) ∙ mod-eq_of_lt small

-- `x & (2^w - 1)`
pub bit_and-mask : (w x : ℕ) → bit_and x (2 ^ w - 1) ≡ x % 2 ^ w
bit_and-mask zero x = omega (arith, no_digits_right x x (omega arith))
bit_and-mask (suc w) x =
    let p = 2 ^ w in
    rw (pow-suc 2 w) (
      omega (
        arith,
        pow-pos w,
        rw half_ones at (bit_and-halves x (p * 2 - 1)),
        bit_and-mask w (x / 2),
        mod-double p x (pow-pos w),
      ))
  where
    half_ones : (2 ^ w * 2 - 1) / 2 ≡ 2 ^ w - 1
    half_ones = omega (arith, pow-pos w)

pow-dvd-pow : (k w v : ℕ) → k + w ≡ v → 2 ^ w ∣ 2 ^ v
pow-dvd-pow zero w v e = let same : w ≡ v = omega arith in rw (← same) (dvd_refl (2 ^ w))
pow-dvd-pow (suc k) w zero e = absurd (omega arith)
pow-dvd-pow (suc k) w (suc v) e =
    rw (pow-suc 2 v) (dvd-mul_right_of_dvd (2 ^ w) (pow-dvd-pow k w v (omega arith)) 2)

-- A power of two is that many times any smaller one, and once more.
pub pow_split : (k w v : ℕ) → k + w ≡ v → (c : ℕ) × (2 ^ v ≡ 2 ^ w * c + 2 ^ w)
pow_split zero w v e = let same : w ≡ v = omega arith in (0, rw (← same) (omega arith))
pow_split (suc k) w zero e = absurd (omega arith)
pow_split (suc k) w (suc v) e =
    let (c, whole) = pow_split k w v (omega arith) in (2 * c + 1, omega (arith, pow-suc 2 v, whole))

-- The mask's law of a value that has wrapped around at 32 bits.
pub bit_and-mask32 : (w x : ℕ) → w ≤ 32 → bit_and (x % 2 ^ 32) (2 ^ w - 1) ≡ x % 2 ^ w
bit_and-mask32 w x h =
    bit_and-mask w (x % 2 ^ 32) ∙ mod-mod_of_dvd (2 ^ w) x (pow-dvd-pow (32 - w) w 32 (omega arith))
