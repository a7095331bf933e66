-- ===== src/Csv/Writer/Length.antt =====
-- How long the lines of `csv_format_batch` of src/timestamp_common.c get.
use native.Mathlib.Nat.{pow-suc}
use native.Mathlib.Decide.{dec_lt}
use trading_latency_benchmar.Prelude.{
  ℕ, zero, suc, ◌+◌, ◌*◌, ◌/◌, ◌%◌, ◌^◌, ◌≤◌, ◌<◌, ◌≡◌, refl, ap, arith, true, false, List, [], ◌∷◌,
  ◌++◌, length, length-append, get_or, ltb, All,
}
use trading_latency_benchmar.Csv.{CsvType, CsvEntry}
use trading_latency_benchmar.Csv.Text.{digits, padded, print_timestamp}
use trading_latency_benchmar.Csv.Writer.{printed_places, print_timestamps, print_fields, print_line}

-- An entry as the fields of `csv_entry_t` bound it; `src_ip` has 16 bytes with the '\0'.
pub record IsPrintable (e : CsvEntry) : Type 0 where
  pub short_ip : length e.src_ip ≤ 15
  pub port_word : e.src_port < 2 ^ 16
  pub seq_word : e.seq_num < 2 ^ 32
  pub timestamp_words : All (λ n. n < 2 ^ 64) e.timestamp_ns

length-digits-le : (fuel k n : ℕ) → 1 ≤ k → n < 10 ^ k → length (digits fuel n) ≤ k
unfolding digits
length-digits-le zero k n some_digits h = omega arith
length-digits-le (suc fuel) zero n some_digits h = absurd (omega arith)
length-digits-le (suc fuel) (suc k) n some_digits h = elim (dec_lt n 10) [
  | yes one_digit ↦ let test : ltb n 10 ≡ true = ground arith in rw test (omega arith)
  | no more ↦
      let test : ltb n 10 ≡ false = ground arith in
      let further : 1 ≤ k = elim (dec_lt 0 k) [
        | yes more_digits ↦ more_digits
        | no last ↦
            let zero_left : k ≡ 0 = omega arith in
            absurd (omega (arith, pow-suc 10 k, ap (λ j. 10 ^ j) zero_left))
      ] in
      rw test (
        omega (
          arith,
          length-append (digits fuel (n / 10)) ((b'0' + n % 10) ∷ []),
          length-digits-le fuel k (n / 10) further (omega (arith, pow-suc 10 k)),
        ))
]

length-padded-eq : (k n : ℕ) → length (padded k n) ≡ k
unfolding padded
length-padded-eq zero n = refl
length-padded-eq (suc k) n =
    omega
      (arith, length-append (padded k (n / 10)) ((b'0' + n % 10) ∷ []), length-padded-eq k (n / 10))

length-print_timestamp : (ns : ℕ) → ns < 2 ^ 64 → length (print_timestamp ns) ≤ 21
unfolding print_timestamp
length-print_timestamp ns word = omega (
  arith,
  length-append (digits 20 (ns / 1000000000)) (b'.' ∷ padded 9 (ns % 1000000000)),
  length-digits-le 20 11 (ns / 1000000000) (omega arith) (omega arith),
  length-padded-eq 9 (ns % 1000000000),
)

get_or-word : (xs : List ℕ) (i : ℕ) → All (λ n. n < 2 ^ 64) xs → get_or xs i 0 < 2 ^ 64
get_or-word [] i h = omega arith
get_or-word (x ∷ xs) zero (h, hs) = h
get_or-word (x ∷ xs) (suc i) (h, hs) = get_or-word xs i hs

length-print_timestamps :
    (e : CsvEntry)
    → IsPrintable e
    → (places : List ℕ) → length (print_timestamps e places) ≤ 22 * length places
unfolding print_timestamps
length-print_timestamps e p [] = omega arith
length-print_timestamps e p (i ∷ places) = omega (
  arith,
  length-append (print_timestamp (get_or e.timestamp_ns i 0)) (print_timestamps e places),
  length-print_timestamp (get_or e.timestamp_ns i 0)
      (get_or-word e.timestamp_ns i p.timestamp_words),
  length-print_timestamps e p places,
)

length-print_fields :
    (e : CsvEntry)
    → IsPrintable e
    → (places : List ℕ) → length places ≤ 6
    → length (print_fields e places) ≤ 165
unfolding print_fields
length-print_fields e p places few =
    let stamps = print_timestamps e places in
    let tail = digits 10 e.seq_num ++ (stamps ++ b'\n' ∷ []) in
    let parts : length (print_fields e places)
        ≡ length (e.src_ip ++ (b',' ∷ (digits 10 e.src_port ++ (b',' ∷ tail)))) =
      refl in
    omega (
      arith,
      p.short_ip,
      parts,
      length-append e.src_ip (b',' ∷ (digits 10 e.src_port ++ (b',' ∷ tail))),
      length-append (digits 10 e.src_port) (b',' ∷ tail),
      length-append (digits 10 e.seq_num) (stamps ++ b'\n' ∷ []),
      length-append stamps (b'\n' ∷ []),
      length-print_timestamps e p places,
      length-digits-le 10 5 e.src_port (omega arith) (omega (arith, p.port_word)),
      length-digits-le 10 10 e.seq_num (omega arith) (omega (arith, p.seq_word)),
    )

-- Every line is shorter than the 256 bytes that the buffer has for it.
pub length-print_line :
    (csv_type : CsvType) (e : CsvEntry) → IsPrintable e → length (print_line csv_type e) ≤ 165
unfolding print_line
length-print_line (CsvType.other v) e p = omega arith
length-print_line CsvType.client_main_oneway e p =
    length-print_fields e p (printed_places CsvType.client_main_oneway) (omega arith)
length-print_line CsvType.client_main_roundtrip e p =
    length-print_fields e p (printed_places CsvType.client_main_roundtrip) (omega arith)
length-print_line CsvType.server_main_oneway e p =
    length-print_fields e p (printed_places CsvType.server_main_oneway) (omega arith)
length-print_line CsvType.server_main_roundtrip e p =
    length-print_fields e p (printed_places CsvType.server_main_roundtrip) (omega arith)
length-print_line CsvType.client_tx e p =
    length-print_fields e p (printed_places CsvType.client_tx) (omega arith)
length-print_line CsvType.server_tx e p =
    length-print_fields e p (printed_places CsvType.server_tx) (omega arith)
