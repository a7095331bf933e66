-- ===== src/Client/Sending/Packets.antt =====
-- The packets of a batch of src/timestamp_client.c, as the server reads them.
use trading_latency_benchmar.Prelude.{
  ℕ, zero, suc, ◌+◌, ◌*◌, ◌/◌, ◌%◌, ◌^◌, ◌≤◌, ◌<◌, ◌≡◌, refl, ◌∙◌, ap, arith, Option, none, some,
  List, [], ◌∷◌, length, length-set, take, set, Bytes, All, read_u32,
}
use trading_latency_benchmar.Client.Sending.{put_u32, fill_packet, advance, fill_batch}

put_u32-word :
    (v : ℕ)
    → v < 2 ^ 32
    → 16777216 * (v / 16777216 % 256) + 65536 * (v / 65536 % 256) + 256 * (v / 256 % 256) + v % 256
      ≡ v
put_u32-word v word = omega arith

length-put_u32 : (p : Bytes) (i v : ℕ) → length (put_u32 p i v) ≡ length p
length-put_u32 p i v = omega (
  arith,
  length-set p i (v / 16777216 % 256),
  length-set (set p i (v / 16777216 % 256)) (i + 1) (v / 65536 % 256),
  length-set (set (set p i (v / 16777216 % 256)) (i + 1) (v / 65536 % 256)) (i + 2) (v / 256 % 256),
  length-set
      (set (set (set p i (v / 16777216 % 256)) (i + 1) (v / 65536 % 256)) (i + 2) (v / 256 % 256))
      (i + 3) (v % 256),
)

read-seq : (v : ℕ) (p : Bytes) → v < 2 ^ 32 → 8 ≤ length p → read_u32 (put_u32 p 0 v) 0 ≡ v
read-seq v [] word long = absurd (omega arith)
read-seq v (a ∷ []) word long = absurd (omega arith)
read-seq v (a ∷ b ∷ []) word long = absurd (omega arith)
read-seq v (a ∷ b ∷ c ∷ []) word long = absurd (omega arith)
read-seq v (a ∷ b ∷ c ∷ d ∷ p) word long = put_u32-word v word

-- The number is not touched by what is written behind it, which is read back.
read-port :
    (v : ℕ) (p : Bytes)
    → v < 2 ^ 32
    → 8 ≤ length p
    → (read_u32 (put_u32 p 4 v) 0 ≡ read_u32 p 0) × (read_u32 (put_u32 p 4 v) 4 ≡ v)
read-port v [] word long = absurd (omega arith)
read-port v (a ∷ []) word long = absurd (omega arith)
read-port v (a ∷ b ∷ []) word long = absurd (omega arith)
read-port v (a ∷ b ∷ c ∷ []) word long = absurd (omega arith)
read-port v (a ∷ b ∷ c ∷ d ∷ []) word long = absurd (omega arith)
read-port v (a ∷ b ∷ c ∷ d ∷ e ∷ []) word long = absurd (omega arith)
read-port v (a ∷ b ∷ c ∷ d ∷ e ∷ f ∷ []) word long = absurd (omega arith)
read-port v (a ∷ b ∷ c ∷ d ∷ e ∷ f ∷ g ∷ []) word long = absurd (omega arith)
read-port v (a ∷ b ∷ c ∷ d ∷ e ∷ f ∷ g ∷ h ∷ p) word long = (refl, put_u32-word v word)

-- The port that a packet names, in round-trip mode.
abbrev pub NamesPort : Option ℕ → Bytes → Type 0
NamesPort none p = Unit
NamesPort (some rx_port) p = read_u32 p 4 ≡ rx_port

-- A packet of the size for a number.
pub record IsPacket (rx_port : Option ℕ) (size n : ℕ) (p : Bytes) : Type 0 where
  pub has_number : read_u32 p 0 ≡ n
  pub has_port : NamesPort rx_port p
  pub has_size : length p ≡ size

-- A port fits in 32 bits, if one is named.
abbrev pub IsPort : Option ℕ → Type 0
IsPort none = Unit
IsPort (some rx_port) = rx_port < 2 ^ 32

fill_packet-IsPacket :
    (rx_port : Option ℕ) (n : ℕ) (p : Bytes) {size : ℕ}
    → IsPort rx_port
    → n < 2 ^ 32
    → 8 ≤ size
    → length p ≡ size
    → IsPacket rx_port size n (fill_packet rx_port n p)
unfolding fill_packet
fill_packet-IsPacket none n p port word long sized = record {
  has_number = read-seq n p word (omega arith);
  has_port = tt;
  has_size = length-put_u32 p 0 n ∙ sized;
}
fill_packet-IsPacket (some rx_port) n p port word long sized =
    let same = length-put_u32 p 0 n in
    let (kept, named) = read-port rx_port (put_u32 p 0 n) port (omega arith) in
    record {
      has_number = kept ∙ read-seq n p word (omega arith);
      has_port = named;
      has_size = length-put_u32 (put_u32 p 0 n) 4 rx_port ∙ (same ∙ sized);
    }

-- Packets with the numbers from `n` on.
abbrev pub Numbered : Option ℕ → ℕ → ℕ → List Bytes → Type 0
Numbered rx_port size n [] = Unit
Numbered rx_port size n (p ∷ ps) =
    IsPacket rx_port size n p × Numbered rx_port size (advance n 1) ps

module _ (rx_port : Option ℕ) (size : ℕ) (port : IsPort rx_port) (long : 8 ≤ size) where
  pub fill_batch-Numbered :
      (k c n : ℕ) (buffers : List Bytes)
      → k ≤ c
      → n < 2 ^ 32
      → All (λ p. length p ≡ size) buffers
      → Numbered rx_port size n (take k (fill_batch rx_port n c buffers))
  unfolding fill_batch
  fill_batch-Numbered zero c n buffers le word sized = tt
  fill_batch-Numbered (suc k) zero n buffers le word sized = absurd (omega arith)
  fill_batch-Numbered (suc k) (suc c) n [] le word sized = tt
  fill_batch-Numbered (suc k) (suc c) n (p ∷ ps) le word (one, sized) = (
    fill_packet-IsPacket rx_port n p port word long one,
    fill_batch-Numbered k c (advance n 1) ps (omega arith) (omega arith) sized,
  )

  -- The buffers keep their size and their number.
  pub fill_batch-sized :
      (c n : ℕ) (buffers : List Bytes)
      → n < 2 ^ 32
      → All (λ p. length p ≡ size) buffers
      → All (λ p. length p ≡ size) (fill_batch rx_port n c buffers)
  unfolding fill_batch
  fill_batch-sized zero n buffers word sized = sized
  fill_batch-sized (suc c) n [] word sized = tt
  fill_batch-sized (suc c) n (p ∷ ps) word (one, sized) = (
    (fill_packet-IsPacket rx_port n p port word long one).has_size,
    fill_batch-sized c (advance n 1) ps (omega arith) sized,
  )

pub length-fill_batch :
    (rx_port : Option ℕ) (c n : ℕ) (buffers : List Bytes)
    → length (fill_batch rx_port n c buffers) ≡ length buffers
unfolding fill_batch
length-fill_batch rx_port zero n buffers = refl
length-fill_batch rx_port (suc c) n [] = refl
length-fill_batch rx_port (suc c) n (p ∷ ps) = ap suc (length-fill_batch rx_port c (advance n 1) ps)
