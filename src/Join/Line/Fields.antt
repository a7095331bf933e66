-- ===== src/Join/Line/Fields.antt =====
-- The fields that `parse_csv_line` splits a line into.
use trading_latency_benchmar.Prelude.{
  ℕ, zero, suc, ◌≤◌, ◌<◌, ◌≡◌, ◌≢◌, refl, ◌∙◌, sym, ap, ap₂, arith, Bool, true, false, List, [],
  ◌∷◌, ◌++◌, append_assoc, append-nil, length, ◌==◌, Bytes, All, Bool-cases, inl, inr, ◌&&◌, not,
}
use trading_latency_benchmar.Join.Line.{
  is_space, skip_spaces, trim_end, trim_whitespace, parse_fields, parse_csv_line,
}

-- A byte that a field can hold as it is: no comma, no quote and no space.
abbrev pub IsPlain : ℕ → Type 0
IsPlain c = (c ≢ b',') × (c ≢ b'"') × (is_space c ≡ false)

-- The fields of a line with commas between them.
unfoldable pub join_fields : Bytes → List Bytes → Bytes
join_fields field [] = field
join_fields field (next ∷ further) = field ++ b',' ∷ join_fields next further

trim_end-plain : (s : Bytes) → All IsPlain s → trim_end s ≡ s
unfolding trim_end
trim_end-plain [] h = refl
trim_end-plain (c ∷ []) (p, h) = ground arith
trim_end-plain (c ∷ d ∷ s) (p, h) = rw (trim_end-plain (d ∷ s) h) refl

skip_spaces-plain : (s : Bytes) → All IsPlain s → skip_spaces s ≡ s
unfolding skip_spaces
skip_spaces-plain [] h = refl
skip_spaces-plain (c ∷ s) (p, h) = ground arith

trim-plain : (s : Bytes) → All IsPlain s → trim_whitespace s ≡ s
unfolding trim_whitespace
trim-plain s h = ap trim_end (skip_spaces-plain s h) ∙ trim_end-plain s h

plain_step :
    (room : ℕ) (opens : Bool) (d : ℕ) (field rest : Bytes)
    → IsPlain d
    → parse_fields (suc room) false opens field (d ∷ rest)
      ≡ parse_fields (suc room) false false (field ++ d ∷ []) rest
unfolding parse_fields
plain_step room opens d field rest (no_comma, no_quote, no_space) =
    let quote : d == b'"' ≡ false = ground (arith, no_quote) in
    let comma : d == b',' ≡ false = ground (arith, no_comma) in
    rw (parse_fields, quote, comma)
      (ap (λ o. parse_fields (suc room) false o (field ++ d ∷ []) rest) comma)

-- Up to a comma plain text is one field.
parse_fields-comma :
    (room : ℕ) (opens : Bool) (s field rest : Bytes)
    → All IsPlain s
    → parse_fields (suc room) false opens field (s ++ b',' ∷ rest)
      ≡ trim_whitespace (field ++ s) ∷ parse_fields room false false [] rest
unfolding parse_fields
parse_fields-comma room opens [] field rest h =
    ap (λ f. trim_whitespace f ∷ parse_fields room false false [] rest) (sym (append-nil field))
parse_fields-comma room opens (d ∷ s) field rest (p, h) =
    plain_step room opens d field (s ++ b',' ∷ rest) p
    ∙ (parse_fields-comma room false s (field ++ d ∷ []) rest h
        ∙ ap (λ f. trim_whitespace f ∷ parse_fields room false false [] rest)
            (append_assoc field (d ∷ []) s))

parse_fields-end :
    (room : ℕ) (opens : Bool) (s field : Bytes)
    → All IsPlain s
    → parse_fields (suc room) false opens field s ≡ trim_whitespace (field ++ s) ∷ []
unfolding parse_fields
parse_fields-end room opens [] field h = ap (λ f. trim_whitespace f ∷ []) (sym (append-nil field))
parse_fields-end room opens (d ∷ s) field (p, h) =
    plain_step room opens d field s p
    ∙ (parse_fields-end room false s (field ++ d ∷ []) h
        ∙ ap (λ f. trim_whitespace f ∷ []) (append_assoc field (d ∷ []) s))

parse_fields-join :
    (room : ℕ) (opens : Bool) (field : Bytes) (further : List Bytes)
    → length further < room
    → All (All IsPlain) (field ∷ further)
    → parse_fields room false opens [] (join_fields field further) ≡ field ∷ further
unfolding join_fields
parse_fields-join zero opens field further few h = absurd (omega arith)
parse_fields-join (suc room) opens field [] few (p, h) =
    parse_fields-end room opens field [] p ∙ ap (λ f. f ∷ []) (trim-plain field p)
parse_fields-join (suc room) opens field (next ∷ further) few (p, h) =
    parse_fields-comma room opens field [] (join_fields next further) p
    ∙ ap₂ ◌∷◌ (trim-plain field p) (parse_fields-join room false next further (omega arith) h)

-- A line of at most `max_fields` fields, none of which holds a comma, a quote or a space, is split into
-- exactly these fields.
pub parse_csv_line-join_fields :
    (max_fields : ℕ) (field : Bytes) (further : List Bytes)
    → length further < max_fields
    → All (All IsPlain) (field ∷ further)
    → parse_csv_line (join_fields field further) max_fields ≡ field ∷ further
unfolding parse_csv_line
parse_csv_line-join_fields max_fields field further =
    parse_fields-join max_fields true field further

length-parse_fields :
    (room : ℕ) (in_quotes opens : Bool) (field s : Bytes)
    → length (parse_fields room in_quotes opens field s) ≤ room
unfolding parse_fields
length-parse_fields zero q o field s = omega arith
length-parse_fields (suc room) q o field [] = omega arith
length-parse_fields (suc room) q o field (c ∷ s) = elim (Bool-cases (c == b'"' && o)) [
  | inl quote ↦
      rw (parse_fields, quote) (length-parse_fields (suc room) (not q) false (field ++ c ∷ []) s)
  | inr plain ↦
      rw (parse_fields, plain)
        (elim (Bool-cases (c == b',' && not q)) [
          | inl comma ↦
              rw (parse_fields, comma) (omega (arith, length-parse_fields room q false [] s))
          | inr other ↦
              rw (parse_fields, other)
                (length-parse_fields (suc room) q (c == b',') (field ++ c ∷ []) s)
        ])
]

-- Whatever the line, at most `max_fields` fields are stored.
pub length-parse_csv_line :
    (line : Bytes) (max_fields : ℕ) → length (parse_csv_line line max_fields) ≤ max_fields
unfolding parse_csv_line
length-parse_csv_line line max_fields = length-parse_fields max_fields false true [] line
