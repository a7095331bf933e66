-- ===== src/Filter/Target.antt =====
-- The packets that `unicast_filter` of unicast_filter.c redirects.
use native.Mathlib.Decide.{dec_lt}
use trading_latency_benchmar.Prelude.{
  ℕ, zero, suc, ◌+◌, ◌*◌, ◌%◌, ◌≤◌, ◌<◌, ◌≡◌, refl, ◌∙◌, ap, arith, Bool, true, false, ◌&&◌, not,
  Option, none, some, [], ◌∷◌, ◌==◌, ltb, leb, if◌then◌else◌, length, get_elem?, get_or, Bytes,
  Bool-cases, inl, inr,
}
use trading_latency_benchmar.Filter.{
  Action, pass, redirect, UnicastConfig, Context, read_byte, read_word, to_socket, match_target,
  match_udp, unicast_filter,
}

-- The numbers in a packet, 0 outside of it.
abbrev byte_at : Bytes → ℕ → ℕ
byte_at packet i = get_or packet i 0

abbrev word_at : Bytes → ℕ → ℕ
word_at packet i = 256 * byte_at packet i + byte_at packet (i + 1)

-- Where the UDP header starts.
abbrev udp_place : Bytes → ℕ
udp_place packet = 14 + byte_at packet 14 % 16 * 4

-- A UDP packet over IPv4 with both headers whole.
abbrev pub is_udp : Bytes → Bool
is_udp packet =
    leb 34 (length packet)
    && word_at packet 12 == 0x0800
    && byte_at packet 23 == 17
    && leb 5 (byte_at packet 14 % 16)
    && leb (udp_place packet + 8) (length packet)

-- For the address and the port that were configured.
abbrev pub is_for : Bytes → UnicastConfig → Bool
is_for packet config =
    65536 * word_at packet 30 + word_at packet 32 == config.target_ip
    && word_at packet (udp_place packet + 2) == config.target_port

abbrev pub is_wanted : Context → Bool
is_wanted ctx = elim (ctx.config) [
  | none ↦ false
  | some config ↦
      is_for ctx.packet config
      && (elim (ctx.xsks ctx.rx_queue_index) [ none ↦ false | some fd ↦ true ])
]

abbrev pub is_target : Context → Bool
is_target ctx = is_udp ctx.packet && is_wanted ctx

get_elem?-inside :
    (packet : Bytes) (i : ℕ) → i < length packet → get_elem? packet i ≡ some (byte_at packet i)
get_elem?-inside [] i h = absurd (omega arith)
get_elem?-inside (b ∷ packet) zero h = refl
get_elem?-inside (b ∷ packet) (suc i) h = get_elem?-inside packet i (omega arith)

read_byte-inside :
    (packet : Bytes) (i : ℕ) (next : ℕ → Option Action)
    → i < length packet
    → read_byte packet i next ≡ next (byte_at packet i)
unfolding read_byte
read_byte-inside packet i next h = rw (read_byte, get_elem?-inside packet i h) refl

read_word-inside :
    (packet : Bytes) (i : ℕ) (next : ℕ → Option Action)
    → i + 1 < length packet
    → read_word packet i next ≡ next (word_at packet i)
unfolding read_word
read_word-inside packet i next h =
    read_byte-inside packet i _ (omega arith) ∙ read_byte-inside packet (i + 1) _ h

module _ (packet : Bytes) (queue : ℕ) (xsks : ℕ → Option ℕ) where
  abbrev context : Option UnicastConfig → Context
  context config = record { packet = packet; rx_queue_index = queue; config = config; xsks = xsks }

  abbrev decided : Bool → Option Action
  decided wanted = some (if wanted then redirect queue else pass)

  match_target-is_wanted :
      (config : Option UnicastConfig)
      → 34 ≤ length packet
      → udp_place packet + 8 ≤ length packet
      → match_target (context config) (udp_place packet) ≡ decided (is_wanted (context config))
  unfolding match_target to_socket
  match_target-is_wanted none long whole = refl
  match_target-is_wanted (some config) long whole =
      let ctx = context (some config) in
      let port = word_at packet (udp_place packet + 2) in
      let high = word_at packet 30 in
      read_word-inside packet (udp_place packet + 2)
        (λ p.
          read_word packet 30
            (λ h. read_word packet 32 (λ l. some (to_socket ctx config p (65536 * h + l)))))
        (omega arith)
      ∙ (read_word-inside packet 30
            (λ h. read_word packet 32 (λ l. some (to_socket ctx config port (65536 * h + l))))
            (omega arith)
          ∙ (read_word-inside packet 32 (λ l. some (to_socket ctx config port (65536 * high + l)))
                (omega arith)
              ∙ ground arith))

  abbrev is_whole_udp : Bool
  is_whole_udp =
      byte_at packet 23 == 17
      && leb 5 (byte_at packet 14 % 16)
      && leb (udp_place packet + 8) (length packet)

  match_udp-is_wanted :
      (config : Option UnicastConfig)
      → 34 ≤ length packet
      → match_udp (context config) ≡ decided (is_whole_udp && is_wanted (context config))
  unfolding match_udp
  match_udp-is_wanted config long =
      let enough : ltb (length packet) 34 ≡ false = ground arith in
      ap (λ (b : Bool). if b then some pass else read_byte packet 23 (after_protocol config)) enough
      ∙ (read_byte-inside packet 23 (after_protocol config) (omega arith)
          ∙ elim (Bool-cases (byte_at packet 23 == 17)) [
            | inr other ↦ ground (arith, other)
            | inl udp ↦
                ap
                  (λ (b : Bool).
                    if not b then some pass else read_byte packet 14 (after_first config))
                  udp
                ∙ (read_byte-inside packet 14 (after_first config) (omega arith)
                    ∙ elim (Bool-cases (is_whole_udp)) [
                      | inl whole ↦
                          ground (arith, match_target-is_wanted config long (ground arith))
                      | inr cut ↦ ground (arith, cut)
                    ])
          ])
    where
      after_first : Option UnicastConfig → ℕ → Option Action
      after_first config first =
          if ltb (first % 16 * 4) 20
          then some pass
          else if ltb (length packet) (14 + first % 16 * 4 + 8)
          then some pass
          else match_target (context config) (14 + first % 16 * 4)

      after_protocol : Option UnicastConfig → ℕ → Option Action
      after_protocol config protocol =
          if not (protocol == 17) then some pass else read_byte packet 14 (after_first config)

-- For every packet, whatever its bytes and its length, the filter ends without a read outside of the
-- packet, and redirects it to the queue it came from exactly if it is a whole UDP packet over IPv4 for
-- the configured address and port and the queue has a socket; all others pass.
pub unicast_filter-is_target :
    (ctx : Context)
    → unicast_filter ctx ≡ some (if is_target ctx then redirect ctx.rx_queue_index else pass)
unfolding unicast_filter match_udp
unicast_filter-is_target ctx = elim (dec_lt (length ctx.packet) 14) [
  | yes short ↦ ground arith
  | no header ↦
      let enough : ltb (length ctx.packet) 14 ≡ false = ground arith in
      ap
        (λ (b : Bool).
          if b
          then some pass
          else read_word ctx.packet 12
              (λ t. if not (t == 0x0800) then some pass else match_udp ctx))
        enough
      ∙ (read_word-inside ctx.packet 12
            (λ t. if not (t == 0x0800) then some pass else match_udp ctx) (omega arith)
          ∙ elim (dec_lt (length ctx.packet) 34) [
            | yes cut ↦ ground arith
            | no long ↦ ground (
              arith,
              match_udp-is_wanted ctx.packet ctx.rx_queue_index ctx.xsks ctx.config (omega arith),
            )
          ])
]
