-- ===== src/Logging/Components.antt =====
-- Which components `parse_log_components` of src/timestamp_server.c and src/timestamp_client.c leaves enabled.
use Prim.Native.Nat.{bit_and, bit_or}
use native.Mathlib.Decide.{ℕ_discrete}
use trading_latency_benchmar.Prelude.{
  ℕ, zero, suc, ◌-◌, ◌*◌, ◌^◌, ◌≤◌, ◌<◌, ◌≡◌, refl, ◌∙◌, sym, ap, ap₂, arith, Bool, true, false,
  ◌&&◌, ◌||◌, not, Option, none, some, List, [], ◌∷◌, ltb, ◌==◌, Bytes, some-of, ◌++◌, ◌↔◌, inl,
  inr, Bool-cases, Option-cases,
}
use trading_latency_benchmar.Prelude.Bits.{bit, bit-and, bit-or, bit-le, bit-pow, bit_and-pow}
use trading_latency_benchmar.Prelude.Words.{pow-pos}
use trading_latency_benchmar.Options.Tokens.{strtok_all}
use trading_latency_benchmar.Logging.Names.{IsSpelled, IsListed, component_of-IsSpelled}
use trading_latency_benchmar.Logging.{
  LogState, hw_log_enable_component, hw_log_disable_component, is_component_enabled, skip_blanks,
  trim_blanks, component_of, disable_all, enable_tokens, parse_log_components,
}

-- Whether a token, less the blanks around it, is the name of the component.
abbrev pub is_named : ℕ → Bytes → Bool
is_named c token = elim (component_of (trim_blanks (skip_blanks token))) [
  | none ↦ false
  | some k ↦ c == k
]

abbrev pub is_listed : ℕ → List Bytes → Bool
is_listed c [] = false
is_listed c (token ∷ tokens) = is_named c token || is_listed c tokens

product_test : (x p : ℕ) → x ≤ 1 → 1 ≤ p → (x * p == 0) ≡ (x == 0)
product_test zero p h pos = ground arith
product_test (suc zero) p h pos = ground arith
product_test (suc (suc x)) p h pos = absurd (omega arith)

enabled-bit :
    (c : ℕ) (s : LogState) → c < 64 → is_component_enabled c s ≡ not (bit c s.component_mask == 0)
unfolding is_component_enabled
enabled-bit c s small =
    let test : ltb c 64 ≡ true = ground arith in
    ap₂ (λ (a b : Bool). a && not b) test
      (ap (λ n. n == 0) (bit_and-pow c s.component_mask)
        ∙ product_test (bit c s.component_mask) (2 ^ c) (bit-le c s.component_mask) (pow-pos c))

enable-enabled :
    (c k : ℕ) (s : LogState)
    → c < 64
    → k < 64
    → is_component_enabled c (hw_log_enable_component k s) ≡ (c == k || is_component_enabled c s)
unfolding hw_log_enable_component
enable-enabled c k s small in_mask =
    let test : ltb k 64 ≡ true = ground arith in
    rw test (
      enabled-bit c (record s { component_mask = bit_or s.component_mask (2 ^ k) }) small
      ∙ ground (arith, bit-or c s.component_mask (2 ^ k), bit-pow c k, enabled-bit c s small))

component_of-small : (token : Bytes) (k : ℕ) → component_of token ≡ some k → k ≤ 6
unfolding component_of
component_of-small token k e = ground (arith, e)

-- A mask without some components.
clear_all : List ℕ → ℕ → ℕ
clear_all [] m = m
clear_all (k ∷ ks) m = clear_all ks (bit_and m (2 ^ 64 - 1 - 2 ^ k))

own_bit : (c : ℕ) → c ≤ 6 → bit c (2 ^ 64 - 1 - 2 ^ c) ≡ 0
unfolding bit
own_bit zero h = refl
own_bit (suc zero) h = refl
own_bit (suc (suc zero)) h = refl
own_bit (suc (suc (suc zero))) h = refl
own_bit (suc (suc (suc (suc zero)))) h = refl
own_bit (suc (suc (suc (suc (suc zero))))) h = refl
own_bit (suc (suc (suc (suc (suc (suc zero)))))) h = refl
own_bit (suc (suc (suc (suc (suc (suc (suc c))))))) h = absurd (omega arith)

-- A digit survives only where every mask has it.
stays_clear : (c : ℕ) (ks : List ℕ) (m : ℕ) → bit c m ≡ 0 → bit c (clear_all ks m) ≡ 0
unfolding clear_all
stays_clear c [] m h = h
stays_clear c (k ∷ ks) m h =
    stays_clear c ks (bit_and m (2 ^ 64 - 1 - 2 ^ k))
      (omega (arith, bit-and c m (2 ^ 64 - 1 - 2 ^ k)))

abbrev is_in : ℕ → List ℕ → Bool
is_in c [] = false
is_in c (k ∷ ks) = c == k || is_in c ks

clear_all-bit :
    (c : ℕ) (ks : List ℕ) (m : ℕ) → c ≤ 6 → is_in c ks ≡ true → bit c (clear_all ks m) ≡ 0
unfolding clear_all
clear_all-bit c [] m h found = absurd (ground (arith, found))
clear_all-bit c (k ∷ ks) m h found = elim (ℕ_discrete c k) [
  | yes same ↦
      let own : bit c (2 ^ 64 - 1 - 2 ^ k) ≡ 0 =
        ap (λ j. bit c (2 ^ 64 - 1 - 2 ^ j)) (sym same) ∙ own_bit c h in
      stays_clear c ks (bit_and m (2 ^ 64 - 1 - 2 ^ k))
        (omega (arith, bit-and c m (2 ^ 64 - 1 - 2 ^ k)))
  | no other ↦ clear_all-bit c ks (bit_and m (2 ^ 64 - 1 - 2 ^ k)) h (ground (arith, found, other))
]

abbrev seven : List ℕ
seven = 0 ∷ 1 ∷ 2 ∷ 3 ∷ 4 ∷ 5 ∷ 6 ∷ []

disable_all-mask :
    (s : LogState) → (disable_all s).component_mask ≡ clear_all seven s.component_mask
unfolding disable_all hw_log_disable_component clear_all
disable_all-mask s = refl

disable_all-enabled :
    (c : ℕ) (s : LogState) → c ≤ 6 → is_component_enabled c (disable_all s) ≡ false
disable_all-enabled c s h =
    enabled-bit c (disable_all s) (omega arith)
    ∙ (ap (λ m. not (bit c m == 0)) (disable_all-mask s)
        ∙ ground (arith, clear_all-bit c seven s.component_mask h (ground arith)))

enable_tokens-enabled :
    (c : ℕ) (tokens : List Bytes) (s t : LogState)
    → c ≤ 6
    → enable_tokens tokens s ≡ some t
    → is_component_enabled c t ≡ is_listed c tokens || is_component_enabled c s
unfolding enable_tokens
enable_tokens-enabled c [] s t h e = ap (is_component_enabled c) (sym (some-of e))
enable_tokens-enabled c (token ∷ tokens) s t h e =
    named (component_of (trim_blanks (skip_blanks token)))
      (λ k same. component_of-small (trim_blanks (skip_blanks token)) k same)
      (λ k rest. enable_tokens-enabled c tokens (hw_log_enable_component k s) t h rest) e
  where
    named :
        (o : Option ℕ)
        → ((k : ℕ) → o ≡ some k → k ≤ 6)
        → ((k : ℕ)
            → enable_tokens tokens (hw_log_enable_component k s) ≡ some t
            → is_component_enabled c t
              ≡ is_listed c tokens || is_component_enabled c (hw_log_enable_component k s))
        → elim o [ none ↦ none | some k ↦ enable_tokens tokens (hw_log_enable_component k s) ]
          ≡ some t
        → is_component_enabled c t
          ≡ ((elim o [ none ↦ false | some k ↦ c == k ]) || is_listed c tokens)
            || is_component_enabled c s
    named none small rest e = absurd (ground (arith, e))
    named (some k) small rest e =
        rest k e
        ∙ (ap (λ b. is_listed c tokens || b)
              (enable-enabled c k s (omega arith) (omega (arith, small k refl)))
            ∙ ground arith)

-- The tests of the code as what they mean.
is_named-IsSpelled : (c : ℕ) (token : Bytes) → c ≤ 6 → (is_named c token ≡ true) ↔ IsSpelled c token
is_named-IsSpelled c token h =
    let found = component_of (trim_blanks (skip_blanks token)) in
    let (spelled, back) = component_of-IsSpelled c token h in
    (
      (λ e. elim (Option-cases found) [
        | inl nothing ↦ absurd (
            let no : false ≡ true =
              sym (ap (λ (o : Option ℕ). elim o [ none ↦ false | some k ↦ c == k ]) nothing) ∙ e in
            ground (arith, no))
        | inr (k, is_k) ↦
            let same : (c == k) ≡ true =
              sym (ap (λ (o : Option ℕ). elim o [ none ↦ false | some k ↦ c == k ]) is_k) ∙ e in
            let equal : k ≡ c = ground (arith, same) in spelled (is_k ∙ ap some equal)
      ]),
      (λ s.
          ap (λ (o : Option ℕ). elim o [ none ↦ false | some k ↦ c == k ]) (back s) ∙ ground arith),
    )

is_listed-IsListed :
    (c : ℕ) (tokens : List Bytes) → c ≤ 6 → is_listed c tokens ≡ true → IsListed c tokens
is_listed-IsListed c [] h e = absurd (ground (arith, e))
is_listed-IsListed c (token ∷ tokens) h e = elim (Bool-cases (is_named c token)) [
  | inl named ↦ record {
    others_before = [];
    token = token;
    others_after = tokens;
    place = refl;
    spelled = (is_named-IsSpelled c token h).0 named;
  }
  | inr other ↦
      let later : is_listed c tokens ≡ true = sym (ap (λ b. b || is_listed c tokens) other) ∙ e in
      let rest = is_listed-IsListed c tokens h later in
      record {
        others_before = token ∷ rest.others_before;
        token = rest.token;
        others_after = rest.others_after;
        place = ap (λ l. token ∷ l) rest.place;
        spelled = rest.spelled;
      }
]

found-is_listed :
    (c : ℕ) (before after : List Bytes) (token : Bytes)
    → is_named c token ≡ true
    → is_listed c (before ++ token ∷ after) ≡ true
found-is_listed c [] after token named = ap (λ b. b || is_listed c after) named
found-is_listed c (other ∷ before) after token named =
    ap (λ b. is_named c other || b) (found-is_listed c before after token named) ∙ ground arith

-- If `parse_log_components` accepts its argument, then of the seven components, MAIN, CLIENT, SERVER, STATS,
-- CSV, NETWORK and SIGNAL, exactly those are enabled whose name, with spaces and tabs around it or none, is
-- one of its tokens, whichever were enabled before.
pub parse_log_components-enabled :
    (c : ℕ) (memory : Bool) (arg : Bytes) (s t : LogState)
    → c ≤ 6
    → parse_log_components memory arg s ≡ some t
    → (is_component_enabled c t ≡ true) ↔ IsListed c (strtok_all b',' arg)
unfolding parse_log_components
parse_log_components-enabled c false arg s t h e = absurd (ground (arith, e))
parse_log_components-enabled c true arg s t h e =
    let tokens = strtok_all b',' arg in
    let enabled : is_component_enabled c t ≡ is_listed c tokens =
      enable_tokens-enabled c tokens (disable_all s) t h e
      ∙ (ap (λ b. is_listed c tokens || b) (disable_all-enabled c s h) ∙ ground arith) in
    (
      (λ on. is_listed-IsListed c tokens h (sym enabled ∙ on)),
      (λ l.
          enabled
          ∙ (ap (is_listed c) l.place
              ∙ found-is_listed c l.others_before l.others_after l.token
                  ((is_named-IsSpelled c l.token h).1 l.spelled))),
    )
