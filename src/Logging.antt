-- ===== src/Logging.antt =====
-- The settings of the console log: src/timestamp_logging.c, with `parse_log_level` and
-- `parse_log_components` of src/timestamp_server.c, which are the same in src/timestamp_client.c.
pub mod Names
pub mod Components
mod Tests
use Prim.Native.Nat.{bit_and, bit_or}
use trading_latency_benchmar.Prelude.{
  ℕ, ◌+◌, ◌-◌, ◌*◌, ◌^◌, Bool, true, false, ◌&&◌, ◌||◌, not, Option, none, some, List, [], ◌∷◌, ltb,
  leb, ◌==◌, if◌then◌else◌, Bytes, codes, str_eq,
}
use trading_latency_benchmar.Options.Tokens.{strtok_all}

-- `g_log_level` and `g_component_mask`
pub record LogState : Type 0 where
  pub level : ℕ
  pub component_mask : ℕ

abbrev pub default_log : LogState
default_log = record { level = 2; component_mask = 2 ^ 64 - 1 }

unfoldable pub hw_log_set_level : ℕ → LogState → LogState
hw_log_set_level level s = if leb level 6 then record s { level = level } else s

unfoldable pub hw_log_enable_component : ℕ → LogState → LogState
hw_log_enable_component component s =
    if ltb component 64
    then record s { component_mask = bit_or s.component_mask (2 ^ component) }
    else s

unfoldable pub hw_log_disable_component : ℕ → LogState → LogState
hw_log_disable_component component s =
    if ltb component 64
    then record s { component_mask = bit_and s.component_mask (2 ^ 64 - 1 - 2 ^ component) }
    else s

unfoldable pub is_component_enabled : ℕ → LogState → Bool
is_component_enabled component s =
    ltb component 64 && not (bit_and s.component_mask (2 ^ component) == 0)

-- Whether `hw_log_internal` prints a message of a level for a component.
unfoldable pub is_printed : ℕ → ℕ → LogState → Bool
unfolding is_component_enabled
is_printed level component s =
    if ltb level s.level || ltb 5 level
    then false
    else if not (is_component_enabled component s)
    then false
    else true

unfoldable pub parse_log_level : Bytes → Option ℕ
parse_log_level level_str =
    if str_eq level_str (codes "DEBUG")
    then some 1
    else if str_eq level_str (codes "INFO")
    then some 2
    else if str_eq level_str (codes "WARN")
    then some 3
    else if str_eq level_str (codes "ERROR")
    then some 4
    else none

unfoldable pub set_log_level : Bytes → LogState → Option LogState
unfolding parse_log_level hw_log_set_level
set_log_level arg s = elim (parse_log_level arg) [
  | none ↦ none
  | some level ↦ some (hw_log_set_level level s)
]

abbrev pub is_blank : ℕ → Bool
is_blank c = c == b' ' || c == 9

unfoldable pub skip_blanks : Bytes → Bytes
skip_blanks [] = []
skip_blanks (c ∷ s) = elim (is_blank c) [ true ↦ skip_blanks s | false ↦ c ∷ s ]

unfoldable pub trim_blanks : Bytes → Bytes
trim_blanks [] = []
trim_blanks (c ∷ s) = elim (trim_blanks s) [
  | [] ↦ if is_blank c then [] else c ∷ []
  | d ∷ t ↦ c ∷ d ∷ t
]

-- The number of a component.
unfoldable pub component_of : Bytes → Option ℕ
component_of token =
    if str_eq token (codes "MAIN")
    then some 0
    else if str_eq token (codes "CLIENT")
    then some 1
    else if str_eq token (codes "SERVER")
    then some 2
    else if str_eq token (codes "STATS")
    then some 3
    else if str_eq token (codes "CSV")
    then some 4
    else if str_eq token (codes "NETWORK")
    then some 5
    else if str_eq token (codes "SIGNAL")
    then some 6
    else none

unfoldable pub disable_all : LogState → LogState
disable_all s = hw_log_disable_component 6 (
    hw_log_disable_component 5 (
      hw_log_disable_component 4 (
        hw_log_disable_component 3 (
          hw_log_disable_component 2 (hw_log_disable_component 1 (hw_log_disable_component 0 s))))))

unfoldable pub enable_tokens : List Bytes → LogState → Option LogState
unfolding skip_blanks trim_blanks component_of
enable_tokens [] s = some s
enable_tokens (token ∷ tokens) s = elim (component_of (trim_blanks (skip_blanks token))) [
  | none ↦ none
  | some component ↦ enable_tokens tokens (hw_log_enable_component component s)
]

-- The flag tells whether `strdup` has memory; `none` is an exit with an error.
unfoldable pub parse_log_components : Bool → Bytes → LogState → Option LogState
unfolding disable_all enable_tokens
parse_log_components memory comp_str s =
    if not memory then none else enable_tokens (strtok_all b',' comp_str) (disable_all s)
