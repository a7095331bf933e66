-- ===== src/Logging/Names.antt =====
-- The names of the components, as `parse_log_components` of src/timestamp_server.c and
-- src/timestamp_client.c reads them.
use trading_latency_benchmar.Prelude.{
  ℕ, zero, suc, ◌≤◌, ◌≡◌, refl, ◌∙◌, ap, arith, true, some, List, [], ◌∷◌, ◌++◌, ◌⊎◌, ◌↔◌, inl, inr,
  if◌then◌else◌, get_or, codes, str_eq, str_eq_iff, All, Bytes, Bool-cases,
}
use trading_latency_benchmar.Logging.{is_blank, skip_blanks, trim_blanks, component_of}

-- The names in the order of `hw_log_component_t`.
abbrev pub component_name : ℕ → Bytes
component_name c =
    get_or
      (codes "MAIN"
        ∷ codes "CLIENT"
        ∷ codes "SERVER"
        ∷ codes "STATS"
        ∷ codes "CSV"
        ∷ codes "NETWORK"
        ∷ codes "SIGNAL"
        ∷ [])
      c []

-- A space or a tab.
abbrev pub IsBlank : ℕ → Type 0
IsBlank c = (c ≡ b' ') ⊎ (c ≡ 9)

-- The name of a component with blanks around it.
pub record IsSpelled (c : ℕ) (token : Bytes) : Type 0 where
  pub before : Bytes
  pub after : Bytes
  pub blank_before : All IsBlank before
  pub blank_after : All IsBlank after
  pub whole : token ≡ before ++ (component_name c ++ after)

-- One of the tokens is the name.
pub record IsListed (c : ℕ) (tokens : List Bytes) : Type 0 where
  pub others_before : List Bytes
  pub token : Bytes
  pub others_after : List Bytes
  pub place : tokens ≡ others_before ++ token ∷ others_after
  pub spelled : IsSpelled c token

is_blank-IsBlank : (c : ℕ) → is_blank c ≡ true → IsBlank c
is_blank-IsBlank c e = ground (arith, e)

IsBlank-is_blank : (c : ℕ) → IsBlank c → is_blank c ≡ true
IsBlank-is_blank c b = ground (arith, b)

skip_blanks-split : (s : Bytes) → (l : Bytes) × All IsBlank l × (s ≡ l ++ skip_blanks s)
unfolding skip_blanks
skip_blanks-split [] = ([], tt, refl)
skip_blanks-split (c ∷ s) = elim (Bool-cases (is_blank c)) [
  | inl blank ↦
      let (l, b, e) = skip_blanks-split s in
      (c ∷ l, (is_blank-IsBlank c blank, b), rw (blank, skip_blanks) (ap (λ r. c ∷ r) e))
  | inr other ↦ ([], tt, rw (other, skip_blanks) refl)
]

-- A byte in front of a trimmed text and the blanks behind it.
trim_step :
    (c : ℕ) (u r : Bytes)
    → All IsBlank r
    → (after : Bytes) × All IsBlank after
      × (c ∷ (u ++ r)
          ≡ (elim u [ [] ↦ if is_blank c then [] else c ∷ [] | d ∷ t ↦ c ∷ d ∷ t ]) ++ after)
trim_step c (d ∷ t) r b = (r, b, refl)
trim_step c [] r b = elim (Bool-cases (is_blank c)) [
  | inl blank ↦ (c ∷ r, (is_blank-IsBlank c blank, b), rw blank refl)
  | inr other ↦ (r, b, rw other refl)
]

trim_blanks-split : (s : Bytes) → (r : Bytes) × All IsBlank r × (s ≡ trim_blanks s ++ r)
unfolding trim_blanks
trim_blanks-split [] = ([], tt, refl)
trim_blanks-split (c ∷ s) =
    let (r, b, e) = trim_blanks-split s in
    let (after, b', e') = trim_step c (trim_blanks s) r b in (after, b', ap (λ u. c ∷ u) e ∙ e')

skip_blanks-append : (l s : Bytes) → All IsBlank l → skip_blanks (l ++ s) ≡ skip_blanks s
unfolding skip_blanks
skip_blanks-append [] s b = refl
skip_blanks-append (c ∷ l) s (blank, b) =
    rw (IsBlank-is_blank c blank, skip_blanks) (skip_blanks-append l s b)

trim_blanks-blank : (r : Bytes) → All IsBlank r → trim_blanks r ≡ []
unfolding trim_blanks
trim_blanks-blank [] b = refl
trim_blanks-blank (c ∷ r) (blank, b) = rw (trim_blanks-blank r b, IsBlank-is_blank c blank) refl

tidy-name :
    (c : ℕ) (r : Bytes)
    → c ≤ 6
    → All IsBlank r
    → trim_blanks (skip_blanks (component_name c ++ r)) ≡ component_name c
unfolding skip_blanks trim_blanks
tidy-name zero r h b = rw (trim_blanks-blank r b) refl
tidy-name (suc zero) r h b = rw (trim_blanks-blank r b) refl
tidy-name (suc (suc zero)) r h b = rw (trim_blanks-blank r b) refl
tidy-name (suc (suc (suc zero))) r h b = rw (trim_blanks-blank r b) refl
tidy-name (suc (suc (suc (suc zero)))) r h b = rw (trim_blanks-blank r b) refl
tidy-name (suc (suc (suc (suc (suc zero))))) r h b = rw (trim_blanks-blank r b) refl
tidy-name (suc (suc (suc (suc (suc (suc zero)))))) r h b = rw (trim_blanks-blank r b) refl
tidy-name (suc (suc (suc (suc (suc (suc (suc c))))))) r h b = absurd (omega arith)

component_of-component_name : (c : ℕ) → c ≤ 6 → component_of (component_name c) ≡ some c
unfolding component_of
component_of-component_name zero h = refl
component_of-component_name (suc zero) h = refl
component_of-component_name (suc (suc zero)) h = refl
component_of-component_name (suc (suc (suc zero))) h = refl
component_of-component_name (suc (suc (suc (suc zero)))) h = refl
component_of-component_name (suc (suc (suc (suc (suc zero))))) h = refl
component_of-component_name (suc (suc (suc (suc (suc (suc zero)))))) h = refl
component_of-component_name (suc (suc (suc (suc (suc (suc (suc c))))))) h = absurd (omega arith)

component_of-named :
    (c : ℕ) (u : Bytes) → c ≤ 6 → component_of u ≡ some c → str_eq u (component_name c) ≡ true
unfolding component_of
component_of-named zero u h e = ground (arith, e)
component_of-named (suc zero) u h e = ground (arith, e)
component_of-named (suc (suc zero)) u h e = ground (arith, e)
component_of-named (suc (suc (suc zero))) u h e = ground (arith, e)
component_of-named (suc (suc (suc (suc zero)))) u h e = ground (arith, e)
component_of-named (suc (suc (suc (suc (suc zero))))) u h e = ground (arith, e)
component_of-named (suc (suc (suc (suc (suc (suc zero)))))) u h e = ground (arith, e)
component_of-named (suc (suc (suc (suc (suc (suc (suc c))))))) u h e = absurd (omega arith)

-- What the code reads as the name is the name with blanks around it.
pub component_of-IsSpelled :
    (c : ℕ) (token : Bytes)
    → c ≤ 6
    → (component_of (trim_blanks (skip_blanks token)) ≡ some c) ↔ IsSpelled c token
component_of-IsSpelled c token h = (
  (λ e.
      let (l, b, split) = skip_blanks-split token in
      let (r, b', split') = trim_blanks-split (skip_blanks token) in
      let name : trim_blanks (skip_blanks token) ≡ component_name c =
        (str_eq_iff (trim_blanks (skip_blanks token)) (component_name c)).0
          (component_of-named c (trim_blanks (skip_blanks token)) h e) in
      record {
        before = l;
        after = r;
        blank_before = b;
        blank_after = b';
        whole = split ∙ ap (λ u. l ++ u) (split' ∙ ap (λ u. u ++ r) name);
      }),
  (λ s.
      ap (λ u. component_of (trim_blanks (skip_blanks u))) s.whole
      ∙ (ap (λ u. component_of (trim_blanks u))
            (skip_blanks-append s.before (component_name c ++ s.after) s.blank_before)
          ∙ (ap component_of (tidy-name c s.after h s.blank_after)
              ∙ component_of-component_name c h))),
)
