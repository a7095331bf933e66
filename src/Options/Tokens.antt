-- ===== src/Options/Tokens.antt =====
-- strtok, which src/timestamp_server.c and src/timestamp_client.c call to split arguments at a comma.
use trading_latency_benchmar.Prelude.{ℕ, List, [], ◌∷◌, ◌==◌, if◌then◌else◌, Bytes}

-- A token before those behind it, if it is not empty.
abbrev pub add_token : Bytes → List Bytes → List Bytes
add_token [] tokens = tokens
add_token (c ∷ token) tokens = (c ∷ token) ∷ tokens

-- The text up to the next delimiter, and the tokens behind it.
unfoldable pub scan_tokens : ℕ → Bytes → Bytes × List Bytes
scan_tokens delimiter [] = ([], [])
scan_tokens delimiter (c ∷ s) =
    let (token, tokens) = scan_tokens delimiter s in
    if c == delimiter then ([], add_token token tokens) else (c ∷ token, tokens)

-- What repeated calls of strtok give.
unfoldable pub strtok_all : ℕ → Bytes → List Bytes
unfolding scan_tokens
strtok_all delimiter s = let (token, tokens) = scan_tokens delimiter s in add_token token tokens
