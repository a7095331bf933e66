-- ===== src/Options/Printed/Tokens.antt =====
-- The tokens of an argument of `--stats`, and the numbers that strtoul reads in them.
use trading_latency_benchmar.Prelude.{
  ℕ, ◌-◌, ◌*◌, ◌^◌, ◌<◌, ◌≡◌, refl, ◌∙◌, sym, ap, arith, false, some, List, [], ◌∷◌, ◌++◌,
  append-nil, length, ltb, ◌==◌, Bytes, codes, All, Lacks, IsDigit,
}
use trading_latency_benchmar.Join.Line.{scan_digits}
use trading_latency_benchmar.Csv.Text.{
  digits, scan_digits-digits, digits-IsDigit, length-digits, skip_spaces-digit, scan_sign-digit,
  starts_with_digit-digit,
}
use trading_latency_benchmar.Options.Tokens.{add_token, scan_tokens, strtok_all}
use trading_latency_benchmar.Options.{strtoul, scale_size}

-- The suffixes of a size, and what they stand for.
pub data Suffix : Type 0 where
  plain kilo mega : Suffix

abbrev pub suffix_text : Suffix → Bytes
suffix_text plain = []
suffix_text kilo = b'K' ∷ []
suffix_text mega = b'M' ∷ []

abbrev pub factor : Suffix → ℕ
factor plain = 1
factor kilo = 1000
factor mega = 1000000

-- "<n><suffix>,bw=<width>,bn=<bins>"
unfoldable pub print_stats_argument : Suffix → ℕ → ℕ → ℕ → Bytes
print_stats_argument suffix n width bins =
    (digits 20 n ++ suffix_text suffix)
    ++ (b',' ∷ ((codes "bw=" ++ digits 20 width) ++ (b',' ∷ (codes "bn=" ++ digits 20 bins))))

scan_tokens-delimiter :
    (d : ℕ) (token s : Bytes)
    → Lacks d token
    → scan_tokens d (token ++ d ∷ s) ≡ (token, strtok_all d s)
unfolding scan_tokens strtok_all
scan_tokens-delimiter d [] s lacks = ground arith
scan_tokens-delimiter d (c ∷ token) s (other, lacks) =
    let test : c == d ≡ false = ground (arith, other) in
    rw (test, scan_tokens-delimiter d token s lacks) refl

scan_tokens-last : (d : ℕ) (token : Bytes) → Lacks d token → scan_tokens d token ≡ (token, [])
unfolding scan_tokens
scan_tokens-last d [] lacks = refl
scan_tokens-last d (c ∷ token) (other, lacks) =
    let test : c == d ≡ false = ground (arith, other) in
    rw (test, scan_tokens-last d token lacks) refl

add_token-some :
    (token : Bytes) (tokens : List Bytes)
    → 0 < length token
    → add_token token tokens ≡ token ∷ tokens
add_token-some [] tokens h = absurd (omega arith)
add_token-some (c ∷ token) tokens h = refl

pub strtok_all-delimiter :
    (d : ℕ) (token s : Bytes)
    → Lacks d token
    → 0 < length token
    → strtok_all d (token ++ d ∷ s) ≡ token ∷ strtok_all d s
unfolding strtok_all
strtok_all-delimiter d token s lacks h =
    ap (λ r. add_token r.0 r.1) (scan_tokens-delimiter d token s lacks)
    ∙ add_token-some token (strtok_all d s) h

pub strtok_all-last :
    (d : ℕ) (token : Bytes) → Lacks d token → 0 < length token → strtok_all d token ≡ token ∷ []
unfolding strtok_all
strtok_all-last d token lacks h =
    ap (λ r. add_token r.0 r.1) (scan_tokens-last d token lacks) ∙ add_token-some token [] h

pub digits-Lacks : (xs : Bytes) → All IsDigit xs → Lacks b',' xs
digits-Lacks [] h = tt
digits-Lacks (c ∷ xs) (digit, h) = ((λ e. omega (arith, digit.0, e)), digits-Lacks xs h)

strtoul-text :
    (xs rest : Bytes) (n : ℕ)
    → All IsDigit xs
    → 0 < length xs
    → scan_digits 0 (xs ++ rest) ≡ (n, rest)
    → n < 2 ^ 64
    → strtoul (xs ++ rest) ≡ (n, rest)
unfolding strtoul
strtoul-text [] rest n h some_digits scanned small = absurd (omega arith)
strtoul-text (c ∷ xs) rest n (digit, h) some_digits scanned small =
    let fits : ltb (2 ^ 64 - 1) n ≡ false = ground arith in
    rw
      (
        skip_spaces-digit c (xs ++ rest) digit,
        scan_sign-digit c (xs ++ rest) digit,
        starts_with_digit-digit c (xs ++ rest) digit,
        scanned,
        fits,
      )
      refl

pub strtoul-suffix :
    (suffix : Suffix) (n : ℕ)
    → n < 2 ^ 64
    → strtoul (digits 20 n ++ suffix_text suffix) ≡ (n, suffix_text suffix)
unfolding scan_digits
strtoul-suffix suffix n small =
    strtoul-text (digits 20 n) (suffix_text suffix) n (digits-IsDigit 20 n) (length-digits 19 n)
      (scan_digits-digits 20 n (suffix_text suffix) (omega arith) ∙ ends suffix) small
  where
    ends : (suffix : Suffix) → scan_digits n (suffix_text suffix) ≡ (n, suffix_text suffix)
    ends plain = refl
    ends kilo = refl
    ends mega = refl

pub scale_size-factor :
    (suffix : Suffix) (n : ℕ)
    → n * factor suffix < 2 ^ 64
    → scale_size n (suffix_text suffix) ≡ some (n * factor suffix)
unfolding scale_size
scale_size-factor plain n small = ap some (omega arith)
scale_size-factor kilo n small = ap some (omega arith)
scale_size-factor mega n small = ap some (omega arith)

pub strtoul-digits : (n : ℕ) → n < 2 ^ 64 → strtoul (digits 20 n) ≡ (n, [])
strtoul-digits n small = ap strtoul (sym (append-nil (digits 20 n))) ∙ strtoul-suffix plain n small
