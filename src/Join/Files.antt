-- ===== src/Join/Files.antt =====
-- `validate_file_combination` of src/timestamp_csvjoin.c: are the files those that the mode and the
-- target need?
use trading_latency_benchmar.Prelude.{
  ℕ, ◌≡◌, refl, ◌∙◌, ap₂, arith, Bool, true, false, ◌&&◌, ◌||◌, not, Option, List, [], ◌∷◌, length,
  map, ◌==◌, if◌then◌else◌, Bytes,
}
use trading_latency_benchmar.Join.Sequences.{Outcome, returned, failed}
use trading_latency_benchmar.Join.Records.{FileType, detect_file_type}
use trading_latency_benchmar.Join.Deltas.{OperationMode, TargetType}

abbrev pub expected_file_count : OperationMode → TargetType → ℕ
expected_file_count OperationMode.one_way TargetType.client = 2
expected_file_count OperationMode.one_way TargetType.server = 1
expected_file_count OperationMode.one_way TargetType.client_server = 3
expected_file_count OperationMode.round_trip TargetType.client = 2
expected_file_count OperationMode.round_trip TargetType.server = 2
expected_file_count OperationMode.round_trip TargetType.client_server = 4

abbrev is_unknown : FileType → Bool
is_unknown FileType.client_oneway_main = false
is_unknown FileType.client_oneway_tx = false
is_unknown FileType.client_roundtrip_main = false
is_unknown FileType.client_roundtrip_tx = false
is_unknown FileType.server_oneway_main = false
is_unknown FileType.server_roundtrip_main = false
is_unknown FileType.server_roundtrip_tx = false
is_unknown FileType.unknown = true

-- The types that set has_client_main or has_client_tx.
abbrev is_client : FileType → Bool
is_client FileType.client_oneway_main = true
is_client FileType.client_oneway_tx = true
is_client FileType.client_roundtrip_main = true
is_client FileType.client_roundtrip_tx = true
is_client FileType.server_oneway_main = false
is_client FileType.server_roundtrip_main = false
is_client FileType.server_roundtrip_tx = false
is_client FileType.unknown = false

-- The types that set has_server_main or has_server_tx.
abbrev is_server : FileType → Bool
is_server FileType.client_oneway_main = false
is_server FileType.client_oneway_tx = false
is_server FileType.client_roundtrip_main = false
is_server FileType.client_roundtrip_tx = false
is_server FileType.server_oneway_main = true
is_server FileType.server_roundtrip_main = true
is_server FileType.server_roundtrip_tx = true
is_server FileType.unknown = false

pub any : (FileType → Bool) → List FileType → Bool
any test [] = false
any test (t ∷ ts) = test t || any test ts

abbrev is_target_client : TargetType → Bool
is_target_client TargetType.client = true
is_target_client TargetType.server = false
is_target_client TargetType.client_server = false

abbrev is_target_server : TargetType → Bool
is_target_server TargetType.client = false
is_target_server TargetType.server = true
is_target_server TargetType.client_server = false

unfoldable pub validate_file_combination :
    OperationMode → TargetType → List (Option (List Bytes)) → Outcome
unfolding any
validate_file_combination mode target files =
    let detected_types = map detect_file_type files in
    if not (length files == expected_file_count mode target)
    then failed
    else if any is_unknown detected_types
    then failed
    else if is_target_client target && any is_server detected_types
    then failed
    else if is_target_server target && any is_client detected_types
    then failed
    else returned

-- The files that a target takes.
abbrev pub suits : TargetType → FileType → Bool
suits TargetType.client t = is_client t
suits TargetType.server t = is_server t
suits TargetType.client_server t = is_client t || is_server t

pub all_suit : TargetType → List FileType → Bool
all_suit target [] = true
all_suit target (t ∷ ts) = suits target t && all_suit target ts

-- What the code asks of one file and of all files.
asked : TargetType → Bool → Bool → Bool → Bool
asked target unknown server client =
    not unknown
    && not (is_target_client target && server)
    && not (is_target_server target && client)

suits-asked :
    (target : TargetType) (t : FileType)
    → suits target t ≡ asked target (is_unknown t) (is_server t) (is_client t)
unfolding asked
suits-asked TargetType.client FileType.client_oneway_main = refl
suits-asked TargetType.client FileType.client_oneway_tx = refl
suits-asked TargetType.client FileType.client_roundtrip_main = refl
suits-asked TargetType.client FileType.client_roundtrip_tx = refl
suits-asked TargetType.client FileType.server_oneway_main = refl
suits-asked TargetType.client FileType.server_roundtrip_main = refl
suits-asked TargetType.client FileType.server_roundtrip_tx = refl
suits-asked TargetType.client FileType.unknown = refl
suits-asked TargetType.server FileType.client_oneway_main = refl
suits-asked TargetType.server FileType.client_oneway_tx = refl
suits-asked TargetType.server FileType.client_roundtrip_main = refl
suits-asked TargetType.server FileType.client_roundtrip_tx = refl
suits-asked TargetType.server FileType.server_oneway_main = refl
suits-asked TargetType.server FileType.server_roundtrip_main = refl
suits-asked TargetType.server FileType.server_roundtrip_tx = refl
suits-asked TargetType.server FileType.unknown = refl
suits-asked TargetType.client_server FileType.client_oneway_main = refl
suits-asked TargetType.client_server FileType.client_oneway_tx = refl
suits-asked TargetType.client_server FileType.client_roundtrip_main = refl
suits-asked TargetType.client_server FileType.client_roundtrip_tx = refl
suits-asked TargetType.client_server FileType.server_oneway_main = refl
suits-asked TargetType.client_server FileType.server_roundtrip_main = refl
suits-asked TargetType.client_server FileType.server_roundtrip_tx = refl
suits-asked TargetType.client_server FileType.unknown = refl

asked-or :
    (target : TargetType) (u s c u' s' c' : Bool)
    → (asked target u s c && asked target u' s' c') ≡ asked target (u || u') (s || s') (c || c')
unfolding asked
asked-or target u s c u' s' c' = ground arith

all_suit-asked :
    (target : TargetType) (ts : List FileType)
    → all_suit target ts ≡ asked target (any is_unknown ts) (any is_server ts) (any is_client ts)
unfolding all_suit any asked
all_suit-asked TargetType.client [] = refl
all_suit-asked TargetType.server [] = refl
all_suit-asked TargetType.client_server [] = refl
all_suit-asked target (t ∷ ts) =
    ap₂ ◌&&◌ (suits-asked target t) (all_suit-asked target ts)
    ∙ asked-or target (is_unknown t) (is_server t) (is_client t) (any is_unknown ts)
        (any is_server ts) (any is_client ts)

pub validate_file_combination-all_suit :
    (mode : OperationMode) (target : TargetType) (files : List (Option (List Bytes)))
    → validate_file_combination mode target files ≡ (
        if length files == expected_file_count mode target
          && all_suit target (map detect_file_type files)
        then returned
        else failed)
unfolding validate_file_combination asked
validate_file_combination-all_suit mode target files =
    ground (arith, all_suit-asked target (map detect_file_type files))
