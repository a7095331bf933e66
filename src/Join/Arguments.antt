-- ===== src/Join/Arguments.antt =====
-- `parse_input_files`, `parse_arguments` and `main` of src/timestamp_csvjoin.c.
pub mod Checked
pub mod Written
mod Tests
use trading_latency_benchmar.Prelude.{
  ℕ, zero, suc, Bool, true, false, not, Option, none, some, List, [], ◌∷◌, map, ◌==◌, if◌then◌else◌,
  Bytes, codes,
}
use trading_latency_benchmar.Options.Tokens.{strtok_all}
use trading_latency_benchmar.Join.Line.{trim_whitespace, atoi_u16}
use trading_latency_benchmar.Join.Sequences.{Outcome, returned, failed}
use trading_latency_benchmar.Join.Records.{detect_file_type, safe_strncpy}
use trading_latency_benchmar.Join.Deltas.{OperationMode, TargetType}
use trading_latency_benchmar.Join.Files.{validate_file_combination}
use trading_latency_benchmar.Join.Process.{
  JoinConfig, InputFile, JoinSystem, process_join_operation,
}

-- An option with its argument; `help` ends the program, `unknown` is any other.
pub data JoinArgument : Type 0 where
  one_way round_trip client server client_server help unknown : JoinArgument
  clt_src_ip clt_src_port input_files output_csv : Bytes → JoinArgument

-- `config_t` with the names of the files, and the flags that tell what is set.
pub record Arguments : Type 0 where
  pub mode : OperationMode
  pub target : TargetType
  pub target_ip : Bytes
  pub target_port : ℕ
  pub input_files : List Bytes
  pub output_file : Bytes
  pub mode_set : Bool
  pub target_set : Bool
  pub clt_ip_set : Bool
  pub clt_port_set : Bool
  pub input_files_set : Bool

abbrev pub no_arguments : Arguments
no_arguments = record {
  mode = OperationMode.one_way;
  target = TargetType.client;
  target_ip = [];
  target_port = 0;
  input_files = [];
  output_file = codes "joined_output.csv";
  mode_set = false;
  target_set = false;
  clt_ip_set = false;
  clt_port_set = false;
  input_files_set = false;
}

-- The loop over the tokens, while there is room for a name. An empty name takes none.
unfoldable pub collect_files : ℕ → List Bytes → List Bytes
unfolding trim_whitespace
collect_files room [] = []
collect_files zero (file ∷ files) = []
collect_files (suc room) (file ∷ files) = elim (trim_whitespace file) [
  | [] ↦ collect_files (suc room) files
  | c ∷ name ↦ safe_strncpy (c ∷ name) 256 ∷ collect_files room files
]

-- The first argument tells whether `strdup` has memory. MAX_FILES is 10.
unfoldable pub parse_input_files : Bool → Bytes → Option (List Bytes)
unfolding collect_files strtok_all
parse_input_files memory files_str =
    if not memory then none else some (collect_files 10 (strtok_all b',' files_str))

-- What the loop over the options, and the function, come to: the arguments, an error, or the end of the
-- program after the help.
pub data Parsed : Type 0 where
  parsed : Arguments → Parsed
  refused helped : Parsed

abbrev pub set_mode : OperationMode → Arguments → Parsed
set_mode m a = if a.mode_set then refused else parsed (record a { mode = m; mode_set = true })

abbrev pub set_target : TargetType → Arguments → Parsed
set_target t a =
    if a.target_set then refused else parsed (record a { target = t; target_set = true })

-- The body of the loop.
unfoldable pub set_argument : Bool → JoinArgument → Arguments → Parsed
unfolding parse_input_files
set_argument memory JoinArgument.one_way a = set_mode OperationMode.one_way a
set_argument memory JoinArgument.round_trip a = set_mode OperationMode.round_trip a
set_argument memory JoinArgument.client a = set_target TargetType.client a
set_argument memory JoinArgument.server a = set_target TargetType.server a
set_argument memory JoinArgument.client_server a = set_target TargetType.client_server a
set_argument memory JoinArgument.help a = helped
set_argument memory JoinArgument.unknown a = refused
set_argument memory (JoinArgument.clt_src_ip arg) a =
    parsed (record a { target_ip = safe_strncpy arg 16; clt_ip_set = true })
set_argument memory (JoinArgument.clt_src_port arg) a =
    if atoi_u16 arg == 0
    then refused
    else parsed (record a { target_port = atoi_u16 arg; clt_port_set = true })
set_argument memory (JoinArgument.input_files arg) a = elim (parse_input_files memory arg) [
  | none ↦ refused
  | some files ↦ parsed (record a { input_files = files; input_files_set = true })
]
set_argument memory (JoinArgument.output_csv arg) a =
    parsed (record a { output_file = safe_strncpy arg 256 })

unfoldable pub set_arguments : Bool → List JoinArgument → Arguments → Parsed
set_arguments memory [] a = parsed a
set_arguments memory (o ∷ os) a = elim (set_argument memory o a) [
  | parsed next ↦ set_arguments memory os next
  | refused ↦ refused
  | helped ↦ helped
]

-- The checks behind the loop.
unfoldable pub all_set : Arguments → Bool
all_set a =
    if not a.mode_set
    then false
    else if not a.target_set
    then false
    else if not a.clt_ip_set
    then false
    else if not a.clt_port_set
    then false
    else if not a.input_files_set
    then false
    else true

unfoldable pub parse_arguments : Bool → List JoinArgument → Parsed
unfolding set_arguments all_set
parse_arguments memory os = elim (set_arguments memory os no_arguments) [
  | parsed a ↦ if all_set a then parsed a else refused
  | refused ↦ refused
  | helped ↦ helped
]

-- The configuration for the join, with what the files hold and the types that were detected.
abbrev pub join_config : (Bytes → Option (List Bytes)) → Arguments → JoinConfig
join_config open_file a = record {
  mode = a.mode;
  target = a.target;
  target_ip = a.target_ip;
  target_port = a.target_port;
  input_files =
      map
        (λ name. record {
          content = open_file name;
          detected_type = detect_file_type (open_file name);
        })
        a.input_files;
}

-- `main` over files that nobody changes: the exit status, and the name and the lines of the output file if
-- it is written.
unfoldable pub join_main :
    Bool
    → JoinSystem
    → (Bytes → Option (List Bytes))
    → List JoinArgument
    → Outcome × Option (Bytes × List Bytes)
unfolding parse_arguments validate_file_combination process_join_operation
join_main memory system open_file os = elim (parse_arguments memory os) [
  | refused ↦ (failed, none)
  | helped ↦ (returned, none)
  | parsed a ↦ elim (validate_file_combination a.mode a.target (map open_file a.input_files)) [
    | failed ↦ (failed, none)
    | returned ↦
        let (outcome, output) = process_join_operation system (join_config open_file a) in
        elim output [ none ↦ (outcome, none) | some lines ↦ (outcome, some (a.output_file, lines)) ]
  ]
]
