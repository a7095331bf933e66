-- ===== src/Options.antt =====
-- The options of the server, src/timestamp_server.c: `parse_stats_argument`, which is the same in
-- src/timestamp_client.c, the loop over the options in `main`, and its checks.
pub mod Tokens
pub mod Stats
pub mod Printed
pub mod Main
pub mod Client
pub mod Kept
mod Tests
use trading_latency_benchmar.Prelude.{
  ℕ, ◌+◌, ◌-◌, ◌*◌, ◌%◌, ◌^◌, min, Bool, true, false, ◌&&◌, ◌||◌, not, Option, none, some, List, [],
  ◌∷◌, ◌++◌, length, take, drop, ltb, leb, ◌==◌, if◌then◌else◌, Bytes, codes, str_eq,
}
use trading_latency_benchmar.Options.Tokens.{strtok_all}
use trading_latency_benchmar.Stats.Entry.{StatsConfig}
use trading_latency_benchmar.Join.Line.{skip_spaces, scan_sign, scan_digits, starts_with_digit}

-- strtoul(s, &endptr, 10): the unsigned long and the text at endptr. A minus sign negates modulo 2^64;
-- a number that is too large gives the greatest.
unfoldable pub strtoul : Bytes → ℕ × Bytes
strtoul s =
    let (negative, digits) = scan_sign (skip_spaces s) in
    let (value, rest) = scan_digits 0 digits in
    if not (starts_with_digit digits)
    then (0, s)
    else if ltb (2 ^ 64 - 1) value
    then (2 ^ 64 - 1, rest)
    else (if negative then (2 ^ 64 - value) % 2 ^ 64 else value, rest)

-- atoi, the int of strtol, as its 32 bits.
unfoldable pub atoi : Bytes → ℕ
atoi s =
    let (negative, digits) = scan_sign (skip_spaces s) in
    let (value, rest) = scan_digits 0 digits in
    if negative then (2 ^ 64 - min value (2 ^ 63)) % 2 ^ 32 else min value (2 ^ 63 - 1) % 2 ^ 32

abbrev pub is_negative : ℕ → Bool
is_negative n = leb (2 ^ 31) n

-- A size with its suffix; `none` is an exit with an error, here and below.
unfoldable pub scale_size : ℕ → Bytes → Option ℕ
scale_size size [] = some size
scale_size size (c ∷ rest) =
    if c == b'M' || c == b'm'
    then some (size * 1000000 % 2 ^ 64)
    else if c == b'K' || c == b'k'
    then some (size * 1000 % 2 ^ 64)
    else none

abbrev pub within : ℕ → ℕ → ℕ → Bool
within low high n = leb low n && leb n high

unfoldable pub parse_buffer_size : Bytes → StatsConfig → Option StatsConfig
unfolding strtoul scale_size
parse_buffer_size token config = elim (scale_size (strtoul token).0 (strtoul token).1) [
  | none ↦ none
  | some size ↦
      if within 10000 10000000 size then some (record config { buffer_size = size }) else none
]

-- "bw=" and "bn=".
unfoldable pub parse_parameter : Bytes → StatsConfig → Option StatsConfig
parse_parameter token config =
    let number = (strtoul (drop 3 token)).0 in
    if str_eq (take 3 token) (codes "bw=")
    then if within 1 1000 number then some (record config { bin_width_us = number }) else none
    else if str_eq (take 3 token) (codes "bn=")
    then if within 10 10000 number then some (record config { max_bins = number }) else none
    else none

unfoldable pub parse_parameters : List Bytes → StatsConfig → Option StatsConfig
unfolding parse_parameter
parse_parameters [] config = some config
parse_parameters (token ∷ tokens) config = elim (parse_parameter token config) [
  | none ↦ none
  | some next ↦ parse_parameters tokens next
]

-- The flag tells whether `strdup` has memory.
unfoldable pub parse_stats_argument : Bool → Bytes → StatsConfig → Option StatsConfig
unfolding strtok_all parse_buffer_size parse_parameters
parse_stats_argument memory arg config = if not memory then none else elim (strtok_all b',' arg) [
  | [] ↦ some config
  | token ∷ tokens ↦ elim (parse_buffer_size token config) [
    | none ↦ none
    | some next ↦ parse_parameters tokens next
  ]
]
