-- ===== src/Filter/Tests.antt =====
-- Concrete runs of the packet filter: a UDP packet to 10.0.0.2, port 5000, with eight bytes of payload.
use trading_latency_benchmar.Prelude.{
  ◌≡◌, refl, none, some, [], ◌∷◌, take, if◌then◌else◌, Bytes, ◌==◌,
}
use trading_latency_benchmar.Filter.{Context, pass, redirect, unicast_filter}
use trading_latency_benchmar.Filter.Target.{is_target, unicast_filter-is_target}

abbrev udp_packet : Bytes
udp_packet =
    2 ∷ 0 ∷ 0 ∷ 0 ∷ 0 ∷ 1 ∷ 2 ∷ 0 ∷ 0 ∷ 0 ∷ 0 ∷ 2 ∷ 8 ∷ 0 ∷ 69 ∷ 0 ∷ 0 ∷ 36 ∷ 0 ∷ 1 ∷ 0 ∷ 0 ∷ 64
    ∷ 17 ∷ 0 ∷ 0 ∷ 10 ∷ 0 ∷ 0 ∷ 1 ∷ 10 ∷ 0 ∷ 0 ∷ 2 ∷ 31 ∷ 64 ∷ 19 ∷ 136 ∷ 0 ∷ 16 ∷ 0 ∷ 0 ∷ 0 ∷ 0 ∷ 0
    ∷ 7 ∷ 0 ∷ 0 ∷ 0 ∷ 0 ∷ []

abbrev context : Bytes → Context
context packet = record {
  packet = packet;
  rx_queue_index = 3;
  config = some (record { target_ip = 167772162; target_port = 5000 });
  xsks = λ queue. if queue == 3 then some 9 else none;
}

-- The whole packet is redirected; cut inside of the UDP header it passes.
udp_packet_redirected : unicast_filter (context udp_packet) ≡ some (redirect 3)
unfolding unicast_filter
udp_packet_redirected = refl

cut_packet_passes : unicast_filter (context (take 40 udp_packet)) ≡ some pass
unfolding unicast_filter
cut_packet_passes = refl

unicast_filter-is_target_example :
    unicast_filter (context udp_packet)
    ≡ some (if is_target (context udp_packet) then redirect 3 else pass)
unicast_filter-is_target_example = unicast_filter-is_target (context udp_packet)
