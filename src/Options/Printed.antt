-- ===== src/Options/Printed.antt =====
-- Arguments of `--stats` as they are written, and what `parse_stats_argument` of src/timestamp_server.c
-- and src/timestamp_client.c reads.
pub mod Tokens
use trading_latency_benchmar.Prelude.{
  ℕ, ◌-◌, ◌*◌, ◌^◌, ◌≤◌, ◌<◌, ◌≡◌, ◌≢◌, refl, ◌∙◌, sym, ap, arith, Bool, true, false, Option, none,
  some, List, [], ◌∷◌, ◌++◌, append-nil, length, length-append, ltb, ◌==◌, if◌then◌else◌, Bytes,
  codes, All, All-append, Lacks, IsDigit,
}
use trading_latency_benchmar.Stats.Entry.{StatsConfig}
use trading_latency_benchmar.Join.Line.{scan_digits}
use trading_latency_benchmar.Csv.Text.{
  digits, scan_digits-digits, digits-IsDigit, length-digits, skip_spaces-digit, scan_sign-digit,
  starts_with_digit-digit,
}
use trading_latency_benchmar.Options.Tokens.{add_token, scan_tokens, strtok_all}
use trading_latency_benchmar.Options.{
  strtoul, scale_size, within, parse_buffer_size, parse_parameter, parse_parameters,
  parse_stats_argument,
}
use trading_latency_benchmar.Options.Printed.Tokens.{
  Suffix, suffix_text, factor, print_stats_argument, strtok_all-delimiter, strtok_all-last,
  digits-Lacks, strtoul-suffix, scale_size-factor, strtoul-digits, plain, kilo, mega,
}

parse_buffer_size-print :
    (suffix : Suffix) (n : ℕ) (c : StatsConfig)
    → within 10000 10000000 (n * factor suffix) ≡ true
    → n < 2 ^ 64
    → parse_buffer_size (digits 20 n ++ suffix_text suffix) c
      ≡ some (record c { buffer_size = n * factor suffix })
unfolding parse_buffer_size
parse_buffer_size-print suffix n c fits small =
    let scaled : scale_size n (suffix_text suffix) ≡ some (n * factor suffix) =
      scale_size-factor suffix n (ground (arith, fits)) in
    ap (λ r. elim (scale_size r.0 r.1) [ none ↦ none | some size ↦ resized size ])
      (strtoul-suffix suffix n small)
    ∙ (ap (λ o. elim o [ none ↦ none | some size ↦ resized size ]) scaled
        ∙ ap (λ (b : Bool). if b then some (record c { buffer_size = n * factor suffix }) else none)
            fits)
  where
    resized : ℕ → Option StatsConfig
    resized size =
        if within 10000 10000000 size then some (record c { buffer_size = size }) else none

parse_width-print :
    (width : ℕ) (c : StatsConfig)
    → within 1 1000 width ≡ true
    → parse_parameter (codes "bw=" ++ digits 20 width) c ≡ some (record c { bin_width_us = width })
unfolding parse_parameter
parse_width-print width c fits =
    ap (λ r. if within 1 1000 r.0 then some (record c { bin_width_us = r.0 }) else none)
      (strtoul-digits width (ground (arith, fits)))
    ∙ ap (λ (b : Bool). if b then some (record c { bin_width_us = width }) else none) fits

parse_bins-print :
    (bins : ℕ) (c : StatsConfig)
    → within 10 10000 bins ≡ true
    → parse_parameter (codes "bn=" ++ digits 20 bins) c ≡ some (record c { max_bins = bins })
unfolding parse_parameter
parse_bins-print bins c fits =
    ap (λ r. if within 10 10000 r.0 then some (record c { max_bins = r.0 }) else none)
      (strtoul-digits bins (ground (arith, fits)))
    ∙ ap (λ (b : Bool). if b then some (record c { max_bins = bins }) else none) fits

parse_parameters-print :
    (width bins : ℕ) (c : StatsConfig)
    → within 1 1000 width ≡ true
    → within 10 10000 bins ≡ true
    → parse_parameters ((codes "bw=" ++ digits 20 width) ∷ (codes "bn=" ++ digits 20 bins) ∷ []) c
      ≡ some (record c { bin_width_us = width; max_bins = bins })
unfolding parse_parameters
parse_parameters-print width bins c width_fits bins_fits =
    ap (then_tokens ((codes "bn=" ++ digits 20 bins) ∷ [])) (parse_width-print width c width_fits)
    ∙ ap (then_tokens []) (parse_bins-print bins (record c { bin_width_us = width }) bins_fits)
  where
    then_tokens : List Bytes → Option StatsConfig → Option StatsConfig
    then_tokens tokens o = elim o [ none ↦ none | some next ↦ parse_parameters tokens next ]

length-text : (xs ys : Bytes) → 0 < length xs → 0 < length (xs ++ ys)
length-text xs ys h = omega (arith, length-append xs ys)

suffix-Lacks : (suffix : Suffix) → Lacks b',' (suffix_text suffix)
suffix-Lacks plain = tt
suffix-Lacks kilo = ((λ e. omega arith), tt)
suffix-Lacks mega = ((λ e. omega arith), tt)

strtok_all-print :
    (suffix : Suffix) (n width bins : ℕ)
    → strtok_all b',' (print_stats_argument suffix n width bins)
      ≡ (digits 20 n ++ suffix_text suffix)
        ∷ (codes "bw=" ++ digits 20 width)
        ∷ (codes "bn=" ++ digits 20 bins)
        ∷ []
unfolding print_stats_argument
strtok_all-print suffix n width bins =
    let bw = codes "bw=" ++ digits 20 width in
    let bn = codes "bn=" ++ digits 20 bins in
    let no_comma = λ (k : ℕ). digits-Lacks (digits 20 k) (digits-IsDigit 20 k) in
    strtok_all-delimiter b',' (digits 20 n ++ suffix_text suffix) (bw ++ (b',' ∷ bn))
      (All-append (λ c. c ≢ b',') (digits 20 n) (suffix_text suffix) (no_comma n)
        (suffix-Lacks suffix))
      (length-text (digits 20 n) (suffix_text suffix) (length-digits 19 n))
    ∙ ap (λ r. (digits 20 n ++ suffix_text suffix) ∷ r)
        (strtok_all-delimiter b',' bw bn
            ((λ e. omega arith), ((λ e. omega arith), ((λ e. omega arith), no_comma width)))
            (omega arith)
          ∙ ap (λ r. bw ∷ r)
              (strtok_all-last b',' bn
                ((λ e. omega arith), ((λ e. omega arith), ((λ e. omega arith), no_comma bins)))
                (omega arith)))

-- A printed argument with a size of 10000 to 10000000 entries after its suffix, a width of 1 to 1000 and
-- 10 to 10000 bins is read back: with memory the configuration has these three numbers.
pub parse_stats_argument-print :
    (suffix : Suffix) (n width bins : ℕ) (c : StatsConfig)
    → within 10000 10000000 (n * factor suffix) ≡ true
    → within 1 1000 width ≡ true
    → within 10 10000 bins ≡ true
    → n ≤ 10000000
    → parse_stats_argument true (print_stats_argument suffix n width bins) c
      ≡ some (record c { buffer_size = n * factor suffix; bin_width_us = width; max_bins = bins })
unfolding parse_stats_argument
parse_stats_argument-print suffix n width bins c size_fits width_fits bins_fits small =
    ap parse_tokens (strtok_all-print suffix n width bins)
    ∙ (ap (λ o. then_parameters o) (parse_buffer_size-print suffix n c size_fits (omega arith))
        ∙ parse_parameters-print width bins (record c { buffer_size = n * factor suffix })
            width_fits bins_fits)
  where
    tokens : List Bytes
    tokens = (codes "bw=" ++ digits 20 width) ∷ (codes "bn=" ++ digits 20 bins) ∷ []

    then_parameters : Option StatsConfig → Option StatsConfig
    then_parameters o = elim o [ none ↦ none | some next ↦ parse_parameters tokens next ]

    parse_tokens : List Bytes → Option StatsConfig
    parse_tokens all = elim all [
      | [] ↦ some c
      | token ∷ tokens ↦ elim (parse_buffer_size token c) [
        | none ↦ none
        | some next ↦ parse_parameters tokens next
      ]
    ]
