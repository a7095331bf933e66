-- ===== src/Join/Line.antt =====
-- One line of a CSV file, from src/timestamp_csvjoin.c: `trim_whitespace`, `parse_csv_line`,
-- `validate_record_match` and `extract_sequence_number`, with the functions of the C library that they
-- call on text. Text is the bytes before the final '\0'.
pub mod Fields
use trading_latency_benchmar.Prelude.{
  ℕ, zero, suc, ◌+◌, ◌-◌, ◌*◌, ◌%◌, ◌^◌, min, Bool, true, false, ◌&&◌, ◌||◌, not, Option, none,
  some, List, [], ◌∷◌, ◌++◌, length, get_or, ◌==◌, ltb, leb, if◌then◌else◌, Bytes, str_eq,
}

-- isspace
abbrev pub is_space : ℕ → Bool
is_space c = c == b' ' || leb 9 c && leb c 13

abbrev pub is_digit : ℕ → Bool
is_digit c = leb b'0' c && leb c b'9'

unfoldable pub skip_spaces : Bytes → Bytes
skip_spaces [] = []
skip_spaces (c ∷ s) = elim (is_space c) [ true ↦ skip_spaces s | false ↦ c ∷ s ]

-- The part of a string up to its last byte that is no space.
pub trim_end : Bytes → Bytes
trim_end [] = []
trim_end (c ∷ s) = elim (trim_end s) [ [] ↦ if is_space c then [] else c ∷ [] | d ∷ t ↦ c ∷ d ∷ t ]

-- The first byte left by the first loop is no space, where the second loop ends at the latest.
unfoldable pub trim_whitespace : Bytes → Bytes
unfolding skip_spaces trim_end
trim_whitespace str = trim_end (skip_spaces str)

-- The loop of `parse_csv_line`: `room` fields may follow, `opens` says that a quote here is taken for
-- one, at the start of the line or behind a comma that was not replaced by '\0', and `field` is the
-- text since `field_start`. A comma that ends a field is replaced, so a quote behind it is plain text.
unfoldable pub parse_fields : ℕ → Bool → Bool → Bytes → Bytes → List Bytes
parse_fields zero in_quotes opens field current = []
parse_fields (suc room) in_quotes opens field [] = trim_whitespace field ∷ []
parse_fields (suc room) in_quotes opens field (c ∷ rest) = elim (c == b'"' && opens) [
  | true ↦ parse_fields (suc room) (not in_quotes) false (field ++ c ∷ []) rest
  | false ↦ elim (c == b',' && not in_quotes) [
    | true ↦ trim_whitespace field ∷ parse_fields room in_quotes false [] rest
    | false ↦ parse_fields (suc room) in_quotes (c == b',') (field ++ c ∷ []) rest
  ]
]

unfoldable pub parse_csv_line : Bytes → ℕ → List Bytes
unfolding parse_fields
parse_csv_line line max_fields = parse_fields max_fields false true [] line

-- line[strcspn(line, "\r\n")] = '\0';
unfoldable pub cut_line_end : Bytes → Bytes
cut_line_end [] = []
cut_line_end (c ∷ s) = elim (c == 13 || c == 10) [ true ↦ [] | false ↦ c ∷ cut_line_end s ]

-- The digits at the start of a string, and what follows them.
unfoldable pub scan_digits : ℕ → Bytes → ℕ × Bytes
scan_digits value [] = (value, [])
scan_digits value (c ∷ s) = elim (is_digit c) [
  | true ↦ scan_digits (10 * value + (c - b'0')) s
  | false ↦ (value, c ∷ s)
]

unfoldable pub starts_with_digit : Bytes → Bool
starts_with_digit [] = false
starts_with_digit (c ∷ s) = is_digit c

-- The sign of a number and what follows it.
unfoldable pub scan_sign : Bytes → Bool × Bytes
scan_sign [] = (false, [])
scan_sign (c ∷ s) =
    if c == b'-' then (true, s) else if c == b'+' then (false, s) else (false, c ∷ s)

-- strtol(s, &endptr, 10): whether there is a minus sign, the absolute value and the text at endptr. It
-- saturates at LONG_MAX, or at LONG_MIN with a minus sign.
unfoldable pub strtol : Bytes → Bool × ℕ × Bytes
unfolding skip_spaces scan_sign starts_with_digit scan_digits
strtol s =
    let (negative, digits) = scan_sign (skip_spaces s) in
    let (value, rest) = scan_digits 0 digits in
    if starts_with_digit digits
    then (negative, min value (if negative then 2 ^ 63 else 2 ^ 63 - 1), rest)
    else (false, 0, s)

-- (uint16_t)atoi(s), with atoi the int of strtol.
unfoldable pub atoi_u16 : Bytes → ℕ
atoi_u16 s =
    let (negative, value, rest) = strtol s in
    if negative then (2 ^ 16 - value % 2 ^ 16) % 2 ^ 16 else value % 2 ^ 16

unfoldable pub validate_record_match : List Bytes → Bytes → ℕ → Bool
validate_record_match fields target_ip target_port =
    if ltb (length fields) 3
    then false
    else if not (str_eq (get_or fields 0 []) target_ip)
    then false
    else atoi_u16 (get_or fields 1 []) == target_port

is_empty : Bytes → Bool
is_empty [] = true
is_empty (c ∷ s) = false

unfoldable pub extract_sequence_number : List Bytes → Option ℕ
unfolding is_empty
extract_sequence_number fields =
    let (negative, seq, endptr) = strtol (get_or fields 2 []) in
    if ltb (length fields) 3
    then none
    else if not (is_empty endptr)
    then none
    else if negative && not (seq == 0)
    then none
    else if ltb (2 ^ 32 - 1) seq
    then none
    else some seq

-- What a line of a file says of a target: the sequence number and the fields of a matching record.
-- MAX_CSV_FIELDS is 20.
unfoldable pub read_line : Bytes → ℕ → Bytes → Option (ℕ × List Bytes)
unfolding cut_line_end is_empty
read_line target_ip target_port line =
    let text = cut_line_end line in
    let fields = parse_csv_line text 20 in
    if is_empty text
    then none
    else if ltb (length fields) 3
    then none
    else if not (validate_record_match fields target_ip target_port)
    then none
    else elim (extract_sequence_number fields) [
      | none ↦ none
      | some seq_num ↦ some (seq_num, fields)
    ]
