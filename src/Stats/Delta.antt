-- ===== src/Stats/Delta.antt =====
-- The table of deltas and the deltas of each mode, from src/timestamp_common.c.
use Prim.Native.String.{String}
use trading_latency_benchmar.Prelude.{ℕ, List, [], ◌∷◌}

-- `delta_definition_t`
pub record DeltaDefinition : Type 0 where
  pub abbreviation : String
  pub description : String
  pub timestamp_a_index : ℕ
  pub timestamp_b_index : ℕ
  pub mode_mask : ℕ

abbrev define_delta : String → String → ℕ → ℕ → ℕ → DeltaDefinition
define_delta short long a b mask = record {
  abbreviation = short;
  description = long;
  timestamp_a_index = a;
  timestamp_b_index = b;
  mode_mask = mask;
}

abbrev pub all_deltas : List DeltaDefinition
all_deltas =
    define_delta "D1: CAT (T1) -> CKT (T2)" "Client Application TX (T1) -> Client Kernel TX (T2)" 1
      2 0x03
    ∷ define_delta "D6: CHR (T8) -> CKR (T9)" "Client Hardware RX (T8) -> Client Kernel RX (T9)" 3 4
        0x02
    ∷ define_delta "D7: CKR (T9) -> CAR (T10)"
        "Client Kernel RX (T9) -> Client Application RX (T10)" 4 6 0x02
    ∷ define_delta "RTT D2: CAT (T1) -> CAR (T10)"
        "Client Application TX (T1) -> Client Application RX (T10)" 1 6 0x02
    ∷ define_delta "RTT D3: CATT (T1) -> CART (T10)"
        "Client Application TX TSC (T1) -> Client Application RX TSC (T10)" 0 5 0x02
    ∷ define_delta "RTT D1: CAT (T1) -> CHR (T8)"
        "Client Application TX (T1) -> Client Hardware RX (T8)" 1 3 0x02
    ∷ define_delta "D2: SHR (T3) -> SKR (T4)" "Server Hardware RX (T3) -> Server Kernel RX (T4)" 7 8
        0x0C
    ∷ define_delta "D3: SKR (T4) -> SAR (T5)" "Server Kernel RX (T4) -> Server Application RX (T5)"
        8 9 0x0C
    ∷ define_delta "D4: SAR (T5) -> SAT (T6)"
        "Server Application RX (T5) -> Server Application TX (T6)" 9 10 0x08
    ∷ define_delta "D5: SAT (T6) -> SKT (T7)" "Server Application TX (T6) -> Server Kernel TX (T7)"
        10 11 0x08
    ∷ define_delta "TT D2: SHR (T3) -> SKT (T7)" "Server Hardware RX (T3) -> Server Kernel TX (T7)"
        7 11 0x08
    ∷ define_delta "TT D1: SHR (T3) -> SAR (T5)"
        "Server Hardware RX (T3) -> Server Application RX (T5)" 7 9 0x0C
    ∷ []

abbrev pub client_oneway_deltas : List ℕ
client_oneway_deltas = 0 ∷ []

abbrev pub client_roundtrip_deltas : List ℕ
client_roundtrip_deltas = 0 ∷ 1 ∷ 2 ∷ 5 ∷ 3 ∷ 4 ∷ []

abbrev pub server_oneway_deltas : List ℕ
server_oneway_deltas = 6 ∷ 7 ∷ 11 ∷ []

abbrev pub server_roundtrip_deltas : List ℕ
server_roundtrip_deltas = 6 ∷ 7 ∷ 8 ∷ 9 ∷ 11 ∷ 10 ∷ []
