-- ===== src/Join/Arguments/Checked.antt =====
-- Which arguments `parse_arguments` of src/timestamp_csvjoin.c takes.
use trading_latency_benchmar.Prelude.{
  ℕ, zero, suc, ◌+◌, ◌≤◌, ◌<◌, ◌≡◌, refl, ◌∙◌, sym, ap, arith, subst, Bool, true, List, [], ◌∷◌,
  length, length-take, ◌==◌, if◌then◌else◌, inl, inr, Bool-cases, Bytes, All,
}
use trading_latency_benchmar.Options.Tokens.{strtok_all}
use trading_latency_benchmar.Join.Line.{trim_whitespace, atoi_u16}
use trading_latency_benchmar.Join.Records.{safe_strncpy}
use trading_latency_benchmar.Join.Deltas.{OperationMode, TargetType}
use trading_latency_benchmar.Join.Arguments.{
  JoinArgument, Arguments, no_arguments, collect_files, parse_input_files, Parsed, parsed, refused,
  helped, set_mode, set_target, set_argument, set_arguments, all_set, parse_arguments,
}

-- How many modes and targets an option names.
abbrev pub modes_of : JoinArgument → ℕ
modes_of JoinArgument.one_way = 1
modes_of JoinArgument.round_trip = 1
modes_of JoinArgument.client = 0
modes_of JoinArgument.server = 0
modes_of JoinArgument.client_server = 0
modes_of JoinArgument.help = 0
modes_of JoinArgument.unknown = 0
modes_of (JoinArgument.clt_src_ip arg) = 0
modes_of (JoinArgument.clt_src_port arg) = 0
modes_of (JoinArgument.input_files arg) = 0
modes_of (JoinArgument.output_csv arg) = 0

abbrev pub targets_of : JoinArgument → ℕ
targets_of JoinArgument.one_way = 0
targets_of JoinArgument.round_trip = 0
targets_of JoinArgument.client = 1
targets_of JoinArgument.server = 1
targets_of JoinArgument.client_server = 1
targets_of JoinArgument.help = 0
targets_of JoinArgument.unknown = 0
targets_of (JoinArgument.clt_src_ip arg) = 0
targets_of (JoinArgument.clt_src_port arg) = 0
targets_of (JoinArgument.input_files arg) = 0
targets_of (JoinArgument.output_csv arg) = 0

abbrev pub sum_of : (JoinArgument → ℕ) → List JoinArgument → ℕ
sum_of count [] = 0
sum_of count (o ∷ os) = count o + sum_of count os

-- A name that fits in its place and is not empty.
abbrev pub IsFileName : Bytes → Type 0
IsFileName name = (0 < length name) × (length name ≤ 255)

-- What the texts and the port keep.
pub record TextsInOrder (ip : Bytes) (port_set : Bool) (port : ℕ) (files : List Bytes)
    (output : Bytes) : Type 0 where
  pub ip_in : length ip ≤ 15
  pub port_low : port_set ≡ true → 1 ≤ port
  pub port_high : port ≤ 65535
  pub few_files : length files ≤ 10
  pub files_named : All IsFileName files
  pub output_in : length output ≤ 255

abbrev pub IsInOrder : Arguments → Type 0
IsInOrder a = TextsInOrder a.target_ip a.clt_port_set a.target_port a.input_files a.output_file

abbrev number_of : Bool → ℕ
number_of b = if b then 1 else 0

-- What an option, or several, leave of what was set before.
record Adds (modes targets : ℕ) (a b : Arguments) : Type 0 where
  modes_added : number_of b.mode_set ≡ number_of a.mode_set + modes
  targets_added : number_of b.target_set ≡ number_of a.target_set + targets
  in_order : IsInOrder b

-- A predicate of the arguments, if they are taken.
abbrev Taken : (Arguments → Type 0) → Parsed → Type 0
Taken P (parsed a) = P a
Taken P refused = Unit
Taken P helped = Unit

abbrev AreNames : ℕ → List Bytes → Type 0
AreNames room names = (length names ≤ room) × All IsFileName names

add-AreNames :
    (room : ℕ) (skipped taken : List Bytes) (name : Bytes)
    → AreNames (suc room) skipped
    → AreNames room taken
    → AreNames
        (suc room)
        (elim name [ [] ↦ skipped | c ∷ rest ↦ safe_strncpy (c ∷ rest) 256 ∷ taken ])
add-AreNames room skipped taken [] h k = h
add-AreNames room skipped taken (c ∷ rest) h (few, all) =
    (omega (arith, few), ((omega arith, omega (arith, length-take 254 rest)), all))

collect_files-AreNames : (room : ℕ) (files : List Bytes) → AreNames room (collect_files room files)
unfolding collect_files
collect_files-AreNames room [] = (omega arith, tt)
collect_files-AreNames zero (file ∷ files) = (omega arith, tt)
collect_files-AreNames (suc room) (file ∷ files) =
    add-AreNames room (collect_files (suc room) files) (collect_files room files)
      (trim_whitespace file) (collect_files-AreNames (suc room) files)
      (collect_files-AreNames room files)

atoi_u16-bound : (s : Bytes) → atoi_u16 s ≤ 65535
unfolding atoi_u16
atoi_u16-bound s = ground arith

set_mode-Adds :
    (m : OperationMode) (a : Arguments) → IsInOrder a → Taken (Adds 1 0 a) (set_mode m a)
set_mode-Adds m a v = elim (Bool-cases a.mode_set) [
  | inl again ↦ rw again tt
  | inr first ↦ rw first (record { modes_added = refl; targets_added = omega arith; in_order = v })
]

set_target-Adds :
    (t : TargetType) (a : Arguments) → IsInOrder a → Taken (Adds 0 1 a) (set_target t a)
set_target-Adds t a v = elim (Bool-cases a.target_set) [
  | inl again ↦ rw again tt
  | inr first ↦ rw first (record { modes_added = omega arith; targets_added = refl; in_order = v })
]

module _ (memory : Bool) where
  set_argument-Adds :
      (o : JoinArgument) (a : Arguments)
      → IsInOrder a
      → Taken (Adds (modes_of o) (targets_of o) a) (set_argument memory o a)
  unfolding set_argument parse_input_files
  set_argument-Adds JoinArgument.one_way a v = set_mode-Adds OperationMode.one_way a v
  set_argument-Adds JoinArgument.round_trip a v = set_mode-Adds OperationMode.round_trip a v
  set_argument-Adds JoinArgument.client a v = set_target-Adds TargetType.client a v
  set_argument-Adds JoinArgument.server a v = set_target-Adds TargetType.server a v
  set_argument-Adds JoinArgument.client_server a v = set_target-Adds TargetType.client_server a v
  set_argument-Adds JoinArgument.help a v = tt
  set_argument-Adds JoinArgument.unknown a v = tt
  set_argument-Adds (JoinArgument.clt_src_ip arg) a v = record {
    modes_added = omega arith;
    targets_added = omega arith;
    in_order = record {
      ip_in = omega (arith, length-take 15 arg);
      port_low = v.port_low;
      port_high = v.port_high;
      few_files = v.few_files;
      files_named = v.files_named;
      output_in = v.output_in;
    };
  }
  set_argument-Adds (JoinArgument.clt_src_port arg) a v = elim (Bool-cases (atoi_u16 arg == 0)) [
    | inl zero_port ↦ rw zero_port tt
    | inr port ↦ rw port (record {
      modes_added = omega arith;
      targets_added = omega arith;
      in_order = record {
        ip_in = v.ip_in;
        port_low = λ given. ground (arith, port);
        port_high = atoi_u16-bound arg;
        few_files = v.few_files;
        files_named = v.files_named;
        output_in = v.output_in;
      };
    })
  ]
  set_argument-Adds (JoinArgument.input_files arg) a v = elim (Bool-cases memory) [
    | inl there ↦
        let (few, all) = collect_files-AreNames 10 (strtok_all b',' arg) in
        rw there (record {
          modes_added = omega arith;
          targets_added = omega arith;
          in_order = record {
            ip_in = v.ip_in;
            port_low = v.port_low;
            port_high = v.port_high;
            few_files = few;
            files_named = all;
            output_in = v.output_in;
          };
        })
    | inr missing ↦ rw missing tt
  ]
  set_argument-Adds (JoinArgument.output_csv arg) a v = record {
    modes_added = omega arith;
    targets_added = omega arith;
    in_order = record {
      ip_in = v.ip_in;
      port_low = v.port_low;
      port_high = v.port_high;
      few_files = v.few_files;
      files_named = v.files_named;
      output_in = omega (arith, length-take 255 arg);
    };
  }

  then-Adds :
      (m t : ℕ) (os : List JoinArgument) (a : Arguments) (first : Parsed)
      → Taken (Adds m t a) first
      → ((b : Arguments)
          → IsInOrder b
          → Taken (Adds (sum_of modes_of os) (sum_of targets_of os) b) (set_arguments memory os b))
      → Taken (Adds (m + sum_of modes_of os) (t + sum_of targets_of os) a) (elim first [
        | parsed next ↦ set_arguments memory os next
        | refused ↦ refused
        | helped ↦ helped
      ])
  then-Adds m t os a refused h rest = tt
  then-Adds m t os a helped h rest = tt
  then-Adds m t os a (parsed b) h rest = both (set_arguments memory os b) (rest b h.in_order)
    where
      both :
          (r : Parsed)
          → Taken (Adds (sum_of modes_of os) (sum_of targets_of os) b) r
          → Taken (Adds (m + sum_of modes_of os) (t + sum_of targets_of os) a) r
      both refused k = tt
      both helped k = tt
      both (parsed c) k = record {
        modes_added = omega (arith, h.modes_added, k.modes_added);
        targets_added = omega (arith, h.targets_added, k.targets_added);
        in_order = k.in_order;
      }

  set_arguments-Adds :
      (os : List JoinArgument) (a : Arguments)
      → IsInOrder a
      → Taken (Adds (sum_of modes_of os) (sum_of targets_of os) a) (set_arguments memory os a)
  unfolding set_arguments
  set_arguments-Adds [] a v = record {
    modes_added = omega arith;
    targets_added = omega arith;
    in_order = v;
  }
  set_arguments-Adds (o ∷ os) a v =
      then-Adds (modes_of o) (targets_of o) os a (set_argument memory o a) (set_argument-Adds o a v)
        (set_arguments-Adds os)

no_arguments-IsInOrder : IsInOrder no_arguments
no_arguments-IsInOrder = record {
  ip_in = omega arith;
  port_low = λ given. absurd (ground (arith, given));
  port_high = omega arith;
  few_files = omega arith;
  files_named = tt;
  output_in = omega arith;
}

-- Arguments that the join can work with.
pub record IsComplete (os : List JoinArgument) (a : Arguments) : Type 0 where
  pub one_mode : sum_of modes_of os ≡ 1
  pub one_target : sum_of targets_of os ≡ 1
  pub in_order : IsInOrder a
  pub port_given : 1 ≤ a.target_port

complete :
    (os : List JoinArgument) (a : Arguments)
    → Adds (sum_of modes_of os) (sum_of targets_of os) no_arguments a
    → all_set a ≡ true
    → IsComplete os a
unfolding all_set
complete os a h ok =
    let mode : a.mode_set ≡ true = ground (arith, ok) in
    let target : a.target_set ≡ true = ground (arith, ok) in
    let port : a.clt_port_set ≡ true = ground (arith, ok) in
    record {
      one_mode = omega (arith, h.modes_added, ap number_of mode);
      one_target = omega (arith, h.targets_added, ap number_of target);
      in_order = h.in_order;
      port_given = h.in_order.port_low port;
    }

parsed-of : {a b : Arguments} → parsed a ≡ parsed b → a ≡ b
parsed-of {a} {b} e = ap (λ p. elim p [ parsed c ↦ c | refused ↦ a | helped ↦ a ]) e

-- If the arguments are taken, then exactly one mode and exactly one target were named, none twice, and what
-- was set is in order: a port from 1 to 65535, at most ten file names, none of them empty, and texts that
-- fit in their places.
pub parse_arguments-IsComplete :
    (memory : Bool) (os : List JoinArgument) (a : Arguments)
    → parse_arguments memory os ≡ parsed a
    → IsComplete os a
unfolding parse_arguments
parse_arguments-IsComplete memory os a =
    taken (set_arguments memory os no_arguments)
      (set_arguments-Adds memory os no_arguments no_arguments-IsInOrder)
  where
    taken :
        (r : Parsed)
        → Taken (Adds (sum_of modes_of os) (sum_of targets_of os) no_arguments) r
        → elim r [
          | parsed b ↦ if all_set b then parsed b else refused
          | refused ↦ refused
          | helped ↦ helped
        ]
          ≡ parsed a
        → IsComplete os a
    taken refused h e = absurd (ground (arith, e))
    taken helped h e = absurd (ground (arith, e))
    taken (parsed b) h e = elim (Bool-cases (all_set b)) [
      | inl ok ↦
          let same : b ≡ a =
            parsed-of (ap (λ (k : Bool). if k then parsed b else refused) (sym ok) ∙ e) in
          subst (IsComplete os) same (complete os b h ok)
      | inr missing ↦
          let none_left : refused ≡ parsed a =
            ap (λ (k : Bool). if k then parsed b else refused) (sym missing) ∙ e in
          absurd (ground (arith, none_left))
    ]
