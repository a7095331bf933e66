-- ===== src/Csv/Text.antt =====
-- The timestamps of a line of the CSV log as `csv_format_batch` prints them, "%llu.%09llu" of the seconds
-- and the nanoseconds, and what `parse_timestamp_ns` of the join reads.
use native.Mathlib.Nat.{pow-suc}
use native.Mathlib.Decide.{dec_lt}
use trading_latency_benchmar.Prelude.{
  ℕ, zero, suc, ◌+◌, ◌-◌, ◌*◌, ◌/◌, ◌%◌, ◌^◌, ◌<◌, ◌≡◌, refl, ◌∙◌, sym, ap, arith, true, false,
  some, [], ◌∷◌, ◌++◌, append_assoc, append-nil, length, length-append, ◌==◌, ltb, if◌then◌else◌,
  Bytes, codes, str_eq, All, All-append, IsDigit, min,
}
use trading_latency_benchmar.Join.Line.{
  is_digit, skip_spaces, scan_digits, scan_sign, starts_with_digit, strtol,
}
use trading_latency_benchmar.Join.Deltas.{atoll_u64, after_dot, parse_timestamp_ns}

-- The decimal digits of a number below 10^fuel, for %llu.
unfoldable pub digits : ℕ → ℕ → Bytes
digits zero n = []
digits (suc fuel) n =
    if ltb n 10 then (b'0' + n) ∷ [] else digits fuel (n / 10) ++ (b'0' + n % 10) ∷ []

-- The last `k` decimal digits of a number, for %09llu of a number below 10^9.
unfoldable pub padded : ℕ → ℕ → Bytes
padded zero n = []
padded (suc k) n = padded k (n / 10) ++ (b'0' + n % 10) ∷ []

-- A uint64_t has at most 20 digits.
unfoldable pub print_timestamp : ℕ → Bytes
print_timestamp ns = digits 20 (ns / 1000000000) ++ b'.' ∷ padded 9 (ns % 1000000000)

scan_digits-one :
    (v d : ℕ) (rest : Bytes)
    → d < 10
    → scan_digits v ((b'0' + d) ∷ rest) ≡ scan_digits (10 * v + d) rest
unfolding scan_digits
scan_digits-one v d rest h =
    let test : is_digit (b'0' + d) ≡ true = ground arith in
    let value : b'0' + d - b'0' ≡ d = omega arith in rw (scan_digits, test, value) refl

digit_sum : (v k n : ℕ) → 10 * (v * 10 ^ k + n / 10) + n % 10 ≡ v * 10 ^ suc k + n
digit_sum v k n =
    let power : v * 10 ^ suc k ≡ 10 * (v * 10 ^ k) =
      ap (λ p. v * p) (pow-suc 10 k) ∙ shuffle v (10 ^ k) in
    omega (arith, power)
  where
    shuffle : (a b : ℕ) → a * (b * 10) ≡ 10 * (a * b)
    shuffle a b = grind arith

scan_digits-padded :
    (k v n : ℕ) (rest : Bytes)
    → n < 10 ^ k
    → scan_digits v (padded k n ++ rest) ≡ scan_digits (v * 10 ^ k + n) rest
unfolding padded
scan_digits-padded zero v n rest h = ap (λ x. scan_digits x rest) (omega arith)
scan_digits-padded (suc k) v n rest h =
    ap (scan_digits v) (append_assoc (padded k (n / 10)) ((b'0' + n % 10) ∷ []) rest)
    ∙ (scan_digits-padded k v (n / 10) ((b'0' + n % 10) ∷ rest) (omega (arith, pow-suc 10 k))
        ∙ (scan_digits-one (v * 10 ^ k + n / 10) (n % 10) rest (omega arith)
            ∙ ap (λ x. scan_digits x rest) (digit_sum v k n)))

pub scan_digits-digits :
    (fuel n : ℕ) (rest : Bytes)
    → n < 10 ^ fuel
    → scan_digits 0 (digits fuel n ++ rest) ≡ scan_digits n rest
unfolding digits
scan_digits-digits zero n rest h = ap (λ x. scan_digits x rest) (omega arith)
scan_digits-digits (suc fuel) n rest h = elim (dec_lt n 10) [
  | yes one_digit ↦
      let test : ltb n 10 ≡ true = ground arith in
      rw test (scan_digits-one 0 n rest one_digit ∙ ap (λ x. scan_digits x rest) (omega arith))
  | no more ↦
      let test : ltb n 10 ≡ false = ground arith in
      rw test (
        ap (scan_digits 0) (append_assoc (digits fuel (n / 10)) ((b'0' + n % 10) ∷ []) rest)
        ∙ (scan_digits-digits fuel (n / 10) ((b'0' + n % 10) ∷ rest)
              (omega (arith, pow-suc 10 fuel))
            ∙ (scan_digits-one (n / 10) (n % 10) rest (omega arith)
                ∙ ap (λ x. scan_digits x rest) (omega arith))))
]

-- The text is digits only, and not empty.
padded-IsDigit : (k n : ℕ) → All IsDigit (padded k n)
unfolding padded
padded-IsDigit zero n = tt
padded-IsDigit (suc k) n =
    All-append IsDigit (padded k (n / 10)) ((b'0' + n % 10) ∷ []) (padded-IsDigit k (n / 10))
      ((omega arith, omega arith), tt)

pub digits-IsDigit : (fuel n : ℕ) → All IsDigit (digits fuel n)
unfolding digits
digits-IsDigit zero n = tt
digits-IsDigit (suc fuel) n = elim (dec_lt n 10) [
  | yes one_digit ↦
      let test : ltb n 10 ≡ true = ground arith in rw test ((omega arith, omega arith), tt)
  | no more ↦
      let test : ltb n 10 ≡ false = ground arith in
      rw test (
        All-append IsDigit (digits fuel (n / 10)) ((b'0' + n % 10) ∷ [])
          (digits-IsDigit fuel (n / 10)) ((omega arith, omega arith), tt))
]

pub length-digits : (fuel n : ℕ) → 0 < length (digits (suc fuel) n)
unfolding digits
length-digits fuel n = elim (dec_lt n 10) [
  | yes one_digit ↦ let test : ltb n 10 ≡ true = ground arith in rw test (omega arith)
  | no more ↦
      let test : ltb n 10 ≡ false = ground arith in
      rw test (omega (arith, length-append (digits fuel (n / 10)) ((b'0' + n % 10) ∷ [])))
]

-- What the library reads of such text.
pub skip_spaces-digit : (c : ℕ) (s : Bytes) → IsDigit c → skip_spaces (c ∷ s) ≡ c ∷ s
unfolding skip_spaces
skip_spaces-digit c s digit = ground (arith, digit)

pub scan_sign-digit : (c : ℕ) (s : Bytes) → IsDigit c → scan_sign (c ∷ s) ≡ (false, c ∷ s)
unfolding scan_sign
scan_sign-digit c s digit = ground (arith, digit)

pub starts_with_digit-digit : (c : ℕ) (s : Bytes) → IsDigit c → starts_with_digit (c ∷ s) ≡ true
unfolding starts_with_digit
starts_with_digit-digit c s digit = ground (arith, digit)

strtol-digits :
    (xs rest : Bytes) (n : ℕ)
    → All IsDigit xs
    → 0 < length xs
    → scan_digits 0 (xs ++ rest) ≡ (n, rest)
    → n < 2 ^ 63
    → strtol (xs ++ rest) ≡ (false, n, rest)
unfolding strtol
strtol-digits [] rest n h some_digits scanned small = absurd (omega arith)
strtol-digits (c ∷ xs) rest n (digit, h) some_digits scanned small =
    let fits : min n (2 ^ 63 - 1) ≡ n = omega arith in
    let text = c ∷ xs ++ rest in
    rw
      (
        skip_spaces-digit c (xs ++ rest) digit,
        scan_sign-digit c (xs ++ rest) digit,
        starts_with_digit-digit c (xs ++ rest) digit,
        scanned,
        fits,
      )
      refl

after_dot-digits : (xs rest : Bytes) → All IsDigit xs → after_dot (xs ++ b'.' ∷ rest) ≡ some rest
unfolding after_dot
after_dot-digits [] rest h = refl
after_dot-digits (c ∷ xs) rest (digit, h) = ground (arith, digit, after_dot-digits xs rest h)

str_eq-digits :
    (xs rest : Bytes) → All IsDigit xs → 0 < length xs → str_eq (xs ++ rest) (codes "NULL") ≡ false
str_eq-digits [] rest h some_digits = absurd (omega arith)
str_eq-digits (c ∷ xs) rest (digit, h) some_digits =
    let other : c == b'N' ≡ false = ground (arith, digit) in rw other refl

length-padded : (k n : ℕ) → 0 < length (padded (suc k) n)
unfolding padded
length-padded k n = omega (arith, length-append (padded k (n / 10)) ((b'0' + n % 10) ∷ []))

seconds-read :
    (n : ℕ) (frac : Bytes)
    → n < 2 ^ 63
    → strtol (digits 20 n ++ b'.' ∷ frac) ≡ (false, n, b'.' ∷ frac)
unfolding scan_digits
seconds-read n frac small =
    strtol-digits (digits 20 n) (b'.' ∷ frac) n (digits-IsDigit 20 n) (length-digits 19 n)
      (scan_digits-digits 20 n (b'.' ∷ frac) (omega arith)) small

nanoseconds-read : (n : ℕ) → n < 10 ^ 9 → strtol (padded 9 n) ≡ (false, n, [])
unfolding scan_digits
nanoseconds-read n small =
    ap strtol (sym (append-nil (padded 9 n)))
    ∙ strtol-digits (padded 9 n) [] n (padded-IsDigit 9 n) (length-padded 8 n)
        (scan_digits-padded 9 0 n [] small ∙ ap (λ x. (x, [])) (omega arith)) (omega arith)

-- The join reads back every timestamp that a uint64_t holds as it was printed.
pub parse_timestamp_ns-print_timestamp :
    (ns : ℕ) → ns < 2 ^ 64 → parse_timestamp_ns (print_timestamp ns) ≡ ns
unfolding parse_timestamp_ns print_timestamp atoll_u64 padded
parse_timestamp_ns-print_timestamp ns word =
    let s = ns / 1000000000 in
    let f = ns % 1000000000 in
    let not_null =
      str_eq-digits (digits 20 s) (b'.' ∷ padded 9 f) (digits-IsDigit 20 s) (length-digits 19 s) in
    let dot = after_dot-digits (digits 20 s) (padded 9 f) (digits-IsDigit 20 s) in
    rw (not_null, dot, seconds-read s (padded 9 f) (omega arith), nanoseconds-read f (omega arith))
      (omega arith)
