-- ===== src/Filter.antt =====
-- The packet filter of the AF_XDP benchmark, af_xdp_zero_copy_perf_benchmark/unicast_filter.c, which the
-- kernel runs on each received packet.
pub mod Target
mod Tests
use trading_latency_benchmar.Prelude.{
  ℕ, ◌+◌, ◌*◌, ◌%◌, Bool, true, false, ◌&&◌, ◌||◌, not, Option, none, some, ◌==◌, ltb,
  if◌then◌else◌, length, get_elem?, Bytes,
}

-- What the filter decides; a redirection names the queue.
pub data Action : Type 0 where
  pass : Action
  redirect : ℕ → Action

-- `struct unicast_config`. Both numbers are in network byte order in the program, as are the fields of
-- the packet that they are compared with; here all are read with the first byte as the highest.
pub record UnicastConfig : Type 0 where
  pub target_ip : ℕ
  pub target_port : ℕ

-- The packet with its receive queue, and what the maps hold at the time: the configuration, and the
-- sockets by queue.
pub record Context : Type 0 where
  pub packet : Bytes
  pub rx_queue_index : ℕ
  pub config : Option UnicastConfig
  pub xsks : ℕ → Option ℕ

-- A read of one byte of the packet; outside of the packet it is a fault, `none`.
unfoldable pub read_byte : Bytes → ℕ → (ℕ → Option Action) → Option Action
read_byte packet i next = elim (get_elem? packet i) [ none ↦ none | some b ↦ next b ]

-- A read of two bytes.
unfoldable pub read_word : Bytes → ℕ → (ℕ → Option Action) → Option Action
unfolding read_byte
read_word packet i next =
    read_byte packet i (λ a. read_byte packet (i + 1) (λ b. next (256 * a + b)))

-- The end, for a packet to the address and the port: the socket of the queue is looked up.
unfoldable pub to_socket : Context → UnicastConfig → ℕ → ℕ → Action
to_socket ctx config dst_port dst_ip =
    if not (dst_ip == config.target_ip) || not (dst_port == config.target_port)
    then pass
    else elim (ctx.xsks ctx.rx_queue_index) [ none ↦ pass | some fd ↦ redirect ctx.rx_queue_index ]

-- The last part: the configuration is looked up, the packet's address and port are read for the comparison.
unfoldable pub match_target : Context → ℕ → Option Action
unfolding read_word to_socket
match_target ctx udp_start = elim (ctx.config) [
  | none ↦ some pass
  | some config ↦ read_word ctx.packet (udp_start + 2) (λ dst_port. read_word ctx.packet 30 (λ high.
      read_word ctx.packet 32 (λ low. some (to_socket ctx config dst_port (65536 * high + low)))))
]

-- The part for an IPv4 packet: its header is at 14, with the length in the low half of the first byte
-- and the protocol at 9; IPPROTO_UDP is 17. The UDP header has 8 bytes.
unfoldable pub match_udp : Context → Option Action
unfolding read_byte match_target
match_udp ctx =
    if ltb (length ctx.packet) 34
    then some pass
    else read_byte ctx.packet 23 (λ protocol.
      if not (protocol == 17)
      then some pass
      else read_byte ctx.packet 14 (λ first.
        let ip_hdr_size = first % 16 * 4 in
        if ltb ip_hdr_size 20
        then some pass
        else if ltb (length ctx.packet) (14 + ip_hdr_size + 8)
        then some pass
        else match_target ctx (14 + ip_hdr_size)))

-- The Ethernet header has 14 bytes, the type of the packet at 12; ETH_P_IP is 0x0800.
unfoldable pub unicast_filter : Context → Option Action
unfolding read_word match_udp
unicast_filter ctx =
    if ltb (length ctx.packet) 14
    then some pass
    else read_word ctx.packet 12
        (λ h_proto. if not (h_proto == 0x0800) then some pass else match_udp ctx)
