-- ===== src/Ring/Size.antt =====
-- `next_power_of_2` of include/timestamp_common.h and the power-of-two test of the buffers.
use Prim.Native.Nat.{bit_and}
use native.Mathlib.Decide.{dec_lt}
use native.Mathlib.Nat.{pow-suc, pow-le-pow_right, mod-eq_of_lt, mod_self}
use trading_latency_benchmar.Prelude.{
  ℕ, zero, suc, ◌+◌, ◌-◌, ◌*◌, ◌/◌, ◌%◌, ◌^◌, ◌≤◌, ◌<◌, ◌≡◌, ◌∙◌, sym, ap, arith, ==_iff, Bool,
  true, ◌==◌, ltb, if◌then◌else◌, Bool-cases, inl, inr,
}
use trading_latency_benchmar.Prelude.Words.{bit_and-halves, bit_and-mask, pow-pos}

-- (n & (n - 1)) == 0
abbrev pub is_pow2 : ℕ → Bool
is_pow2 n = bit_and n (n - 1) == 0

-- `while (power < n) { power <<= 1; if (power == 0) return 0; } return power;`
pub double_until : ℕ → ℕ → ℕ → ℕ
double_until zero n power = power
double_until (suc fuel) n power =
    let power' = power * 2 % 2 ^ 32 in
    let rest = double_until fuel n power' in
    let next = if power' == 0 then 0 else rest in if ltb power n then next else power

-- A uint32_t has 32 bits, so 33 rounds end the loop.
unfoldable pub next_power_of_2 : ℕ → ℕ
unfolding double_until
next_power_of_2 n = if n == 0 then 1 else if is_pow2 n then n else double_until 33 n 1

bit_and_self : (f a : ℕ) → a ≤ f → bit_and a a ≡ a
bit_and_self f zero h = omega (arith, bit_and-halves 0 0)
bit_and_self zero (suc a) h = absurd (omega arith)
bit_and_self (suc f) (suc a) h =
    omega (arith, bit_and-halves (suc a) (suc a), bit_and_self f (suc a / 2) (omega arith))

lower_half : (n : ℕ) → bit_and n (n - 1) ≡ 0 → bit_and (n / 2) ((n - 1) / 2) ≡ 0
lower_half n e = omega (arith, bit_and-halves n (n - 1))

-- A number that passes the test is a power of two.
pow2_below : (f n : ℕ) → 1 ≤ n → n ≤ f → bit_and n (n - 1) ≡ 0 → (w : ℕ) × (n ≡ 2 ^ w)
pow2_below zero n h p e = absurd (omega arith)
pow2_below (suc f) n h p e = elim (dec_lt 0 (n % 2)) [
  | yes odd ↦
      let same : (n - 1) / 2 ≡ n / 2 = omega arith in
      let half : bit_and (n / 2) (n / 2) ≡ 0 = rw same at (lower_half n e) in
      (0, omega (arith, half, bit_and_self (n / 2) (n / 2) (omega arith)))
  | no even ↦
      let same : (n - 1) / 2 ≡ n / 2 - 1 = omega arith in
      let below : bit_and (n / 2) (n / 2 - 1) ≡ 0 = rw same at (lower_half n e) in
      let (w, half) = pow2_below f (n / 2) (omega arith) (omega arith) below in
      (suc w, omega (arith, half, pow-suc 2 w))
]

pub is_pow2-pow : (n : ℕ) → 1 ≤ n → is_pow2 n ≡ true → (w : ℕ) × (n ≡ 2 ^ w)
is_pow2-pow n h pow = pow2_below n n h (omega arith) ((==_iff _ _).0 pow)

-- A power of two passes it.
pub pow2-is_pow2 : (w : ℕ) → is_pow2 (2 ^ w) ≡ true
pow2-is_pow2 w = ground (arith, bit_and-mask w (2 ^ w), mod_self (2 ^ w))

double_until_stop : (f n power : ℕ) → n ≤ power → double_until (suc f) n power ≡ power
unfolding double_until
double_until_stop f n power h = ground arith

double_until_next :
    (f n power : ℕ)
    → power < n
    → 1 ≤ power
    → power * 2 < 2 ^ 32
    → double_until (suc f) n power ≡ double_until f n (power * 2)
unfolding double_until
double_until_next f n power h low high =
    let fits : power * 2 % 2 ^ 32 ≡ power * 2 = mod-eq_of_lt high in rw fits (ground arith)

exponent_le : (w v : ℕ) → 2 ^ w ≤ 2 ^ v → w ≤ v
exponent_le w v h = elim (dec_lt v w) [
  | yes more ↦
      absurd (omega (arith, pow-suc 2 v, pow-pos v, pow-le-pow_right {n = 2} (omega arith) more))
  | no less ↦ omega arith
]

pub exponent_lt : (w v : ℕ) → 2 ^ w < 2 ^ v → w < v
exponent_lt w v h = elim (dec_lt w v) [
  | yes less ↦ less
  | no more ↦
      absurd (omega (arith, pow-le-pow_right {n = 2} (omega arith) {i = v} {j = w} (omega arith)))
]

exponent_room : (w v : ℕ) → w ≤ v → 2 ^ w < 2 ^ v → suc w ≤ v
exponent_room w v h lt = elim (dec_lt w v) [
  | yes room ↦ room
  | no end ↦ let same : w ≡ v = omega arith in absurd (omega (arith, ap (λ k. 2 ^ k) same))
]

-- The loop finds the least power of two that is no less than `n`, if it starts below twice `n`.
double_until_lem :
    (f w n : ℕ)
    → w + f ≡ 33
    → w ≤ 31
    → n ≤ 2 ^ 31
    → 2 ^ w < 2 * n
    → (v : ℕ) × (double_until f n (2 ^ w) ≡ 2 ^ v) × (v ≤ 31) × (n ≤ 2 ^ v) × (2 ^ v < 2 * n)
double_until_lem zero w n e h fits low = absurd (omega arith)
double_until_lem (suc f) w n e h fits low = elim (dec_lt (2 ^ w) n) [
  | no stop ↦ (w, double_until_stop f n (2 ^ w) (omega arith), h, omega arith, low)
  | yes more ↦
      let room : suc w ≤ 31 = exponent_room w 31 h (omega arith) in
      let double : 2 ^ suc w ≡ 2 ^ w * 2 = pow-suc 2 w in
      let small : 2 ^ suc w ≤ 2 ^ 31 = pow-le-pow_right (omega arith) room in
      let (v, found, le, fit, least) =
        double_until_lem f (suc w) n (omega arith) room fits (omega arith) in
      (
        v,
        double_until_next f n (2 ^ w) more (pow-pos w) (omega arith)
            ∙ (ap (double_until f n) (sym double) ∙ found),
        le,
        fit,
        least,
      )
]

-- For a size of at most 2^31 the result is the least power of two that is no less.
pub next_power_of_2-least :
    (n : ℕ)
    → 1 ≤ n
    → n ≤ 2 ^ 31
    → (v : ℕ) × (next_power_of_2 n ≡ 2 ^ v) × (v ≤ 31) × (n ≤ 2 ^ v) × (2 ^ v < 2 * n)
unfolding next_power_of_2
next_power_of_2-least n h fits = elim (Bool-cases (is_pow2 n)) [
  | inl pow ↦
      let (w, e) = is_pow2-pow n h pow in
      (w, ground arith, exponent_le w 31 (omega arith), omega arith, omega arith)
  | inr other ↦
      let (v, found, le, fit, least) =
        double_until_lem 33 0 n (omega arith) (omega arith) fits (omega arith) in
      (v, ground arith, le, fit, least)
]

double_until-last : (f n : ℕ) → 2 ^ 31 < n → double_until (suc f) n (2 ^ 31) ≡ 0
unfolding double_until
double_until-last f n big = ground arith

-- Above 2^31 every round doubles, and the last wraps to zero.
double_until-overflow :
    (g f w n : ℕ) → w + g ≡ 31 → g ≤ f → 2 ^ 31 < n → double_until (suc f) n (2 ^ w) ≡ 0
double_until-overflow zero f w n e h big =
    let last : w ≡ 31 = omega arith in
    ap (λ k. double_until (suc f) n (2 ^ k)) last ∙ double_until-last f n big
double_until-overflow (suc g) zero w n e h big = absurd (omega arith)
double_until-overflow (suc g) (suc f) w n e h big =
    let double : 2 ^ suc w ≡ 2 ^ w * 2 = pow-suc 2 w in
    let small : 2 ^ suc w ≤ 2 ^ 31 =
      pow-le-pow_right (omega arith) {i = suc w} {j = 31} (omega arith) in
    double_until_next (suc f) n (2 ^ w) (omega arith) (pow-pos w) (omega arith)
    ∙ (ap (double_until (suc f) n) (sym double)
        ∙ double_until-overflow g f (suc w) n (omega arith) (omega arith) big)

-- Above 2^31 the result is 0: no power of two fits in a uint32_t.
pub next_power_of_2-overflow : (n : ℕ) → 2 ^ 31 < n → n < 2 ^ 32 → next_power_of_2 n ≡ 0
unfolding next_power_of_2
next_power_of_2-overflow n big word = elim (Bool-cases (is_pow2 n)) [
  | inl pow ↦
      let (w, e) = pow2_below n n (omega arith) (omega arith) ((==_iff _ _).0 pow) in
      let low : w < 32 = exponent_lt w 32 (omega arith) in
      let le : 2 ^ w ≤ 2 ^ 31 = pow-le-pow_right (omega arith) {i = w} {j = 31} (omega arith) in
      absurd (omega arith)
  | inr other ↦ ground (arith, double_until-overflow 31 32 0 n (omega arith) (omega arith) big)
]
