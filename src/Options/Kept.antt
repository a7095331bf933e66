-- ===== src/Options/Kept.antt =====
-- What the options that src/timestamp_server.c and src/timestamp_client.c share do to the settings.
use trading_latency_benchmar.Prelude.{
  ℕ, ◌^◌, ◌<◌, ◌≡◌, ◌∙◌, sym, ap, subst, arith, Bool, true, Option, none, some, some-of, Bytes,
  Bool-cases, inl, inr, if◌then◌else◌,
}
use trading_latency_benchmar.Stats.Entry.{StatsConfig}
use trading_latency_benchmar.Options.{is_negative, parse_stats_argument}
use trading_latency_benchmar.Options.Stats.{IsInRange, Keeps, parse_stats_argument-Keeps}
use trading_latency_benchmar.Options.Main.{default_stats, set_stats}

-- The statistics, the CPU of the log and that of the TX timestamps are in their ranges.
pub record InOrder (stats_config : StatsConfig) (log_cpu timestamp_cpu : ℕ) : Type 0 where
  pub stats_in : IsInRange stats_config
  pub log_cpu_in : log_cpu < 2 ^ 31
  pub timestamp_cpu_in : timestamp_cpu < 2 ^ 31

enabled-IsInRange : (c : StatsConfig) → IsInRange c → IsInRange (record c { enabled = 1 })
enabled-IsInRange c v = record {
  size_low = v.size_low;
  size_high = v.size_high;
  width_low = v.width_low;
  width_high = v.width_high;
  bins_low = v.bins_low;
  bins_high = v.bins_high;
}

pub default_stats-IsInRange : IsInRange default_stats
default_stats-IsInRange = record {
  size_low = omega arith;
  size_high = omega arith;
  width_low = omega arith;
  width_high = omega arith;
  bins_low = omega arith;
  bins_high = omega arith;
}

pub default-InOrder : InOrder default_stats 0 0
default-InOrder = record {
  stats_in = default_stats-IsInRange;
  log_cpu_in = omega arith;
  timestamp_cpu_in = omega arith;
}

-- A predicate of what an option leaves, if it leaves something.
abbrev pub Left {ℓ} : {A : Type ℓ} → (A → Type 0) → Option A → Type 0
Left P none = Unit
Left P (some a) = P a

pub anything {ℓ} : {A : Type ℓ} (o : Option A) → Left (λ a. Unit) o
anything none = tt
anything (some a) = tt

pub set_stats-IsInRange :
    (memory : Bool) (arg : Option Bytes) (c : StatsConfig)
    → IsInRange c
    → Left IsInRange (set_stats memory arg c)
unfolding set_stats
set_stats-IsInRange memory none c v = enabled-IsInRange default_stats default_stats-IsInRange
set_stats-IsInRange memory (some arg) c v =
    kept (parse_stats_argument memory arg (record c { enabled = 1 }))
      (parse_stats_argument-Keeps memory arg (record c { enabled = 1 }) (enabled-IsInRange c v))
  where
    kept : (o : Option StatsConfig) → Keeps (record c { enabled = 1 }) o → Left IsInRange o
    kept none k = tt
    kept (some s) (range, same) = range

-- A setting that takes a number which is not negative.
pub not_negative-Left {ℓ} :
    {A : Type ℓ} (P : A → Type 0) (n : ℕ) (a : A)
    → (n < 2 ^ 31 → P a)
    → Left P (if is_negative n then none else some a)
not_negative-Left P n a h = elim (Bool-cases (is_negative n)) [
  | inl minus ↦ rw minus tt
  | inr fits ↦ rw fits (h (ground (arith, fits)))
]

-- A setting that is made from what a function gives, if it gives something.
pub elim-Left {ℓ κ} :
    {A : Type ℓ} {B : Type κ} (P : A → Type 0) (Q : B → Type 0) (f : A → B) (o : Option A)
    → Left P o
    → ((a : A) → P a → Q (f a))
    → Left Q (elim o [ none ↦ none | some a ↦ some (f a) ])
elim-Left P Q f none h keep = tt
elim-Left P Q f (some a) h keep = keep a h

-- An option and those behind it.
pub then-Left {ℓ} :
    {C : Type ℓ} (P : C → Type 0) (rest : C → Option C) (o : Option C)
    → Left P o
    → ((c : C) → P c → Left P (rest c))
    → Left P (elim o [ none ↦ none | some next ↦ rest next ])
then-Left P rest none h keep = tt
then-Left P rest (some c) h keep = keep c h

-- What is started has passed the checks.
pub started-Left {ℓ} :
    {C : Type ℓ} (P : C → Type 0) (accepts : C → Bool) (o : Option C) (c : C)
    → Left P o
    → elim o [ none ↦ none | some d ↦ if accepts d then some d else none ] ≡ some c
    → P c × (accepts c ≡ true)
started-Left P accepts none c h e = absurd (ground (arith, e))
started-Left P accepts (some d) c h e = elim (Bool-cases (accepts d)) [
  | inl ok ↦
      let same : d ≡ c = some-of (ap (λ (b : Bool). if b then some d else none) (sym ok) ∙ e) in
      (subst P same h, subst (λ x. accepts x ≡ true) same ok)
  | inr failed ↦
      let none_left : none ≡ some c =
        ap (λ (b : Bool). if b then some d else none) (sym failed) ∙ e in
      absurd (ground (arith, none_left))
]
