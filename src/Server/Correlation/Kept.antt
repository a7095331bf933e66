-- ===== src/Server/Correlation/Kept.antt =====
-- How long the correlation arrays of src/timestamp_server.c keep what was stored for a packet.
use trading_latency_benchmar.Prelude.{
  ℕ, ◌+◌, ◌≤◌, ◌<◌, ◌≡◌, ◌≢◌, refl, ◌∙◌, arith, Option, some, List, [], ◌∷◌, length, length-set,
  set, get_or, get_or-set_self, get_or-set_ne, take, length-replicate, Bytes,
}
use trading_latency_benchmar.Server.Correlation.{
  Timespec, zero_ts, get_circular_index, Correlation, empty_correlation, store_server_rx_timestamps,
}

-- All arrays have MAX_SEQUENCE_NUMBERS places.
pub record IsSized (c : Correlation) : Type 0 where
  pub ips_sized : length c.client_ips ≡ 50000
  pub ports_sized : length c.client_ports ≡ 50000
  pub hw_sized : length c.hw_rx ≡ 50000
  pub ker_sized : length c.ker_rx ≡ 50000
  pub app_sized : length c.app_rx ≡ 50000

-- A packet as the RX thread stores it.
pub record Stored : Type 0 where
  pub seq_num : ℕ
  pub hw : Timespec
  pub ker : Timespec
  pub app : Timespec
  pub client_ip : Bytes
  pub client_port : ℕ

abbrev pub store : Stored → Option Correlation → Option Correlation
store p = store_server_rx_timestamps p.seq_num p.hw p.ker p.app p.client_ip p.client_port

-- What the TX side finds in the arrays for a sequence number.
pub record Finds (c : Correlation) (seq_num : ℕ) (p : Stored) : Type 0 where
  pub hw_found : get_or c.hw_rx (get_circular_index seq_num) zero_ts ≡ p.hw
  pub ker_found : get_or c.ker_rx (get_circular_index seq_num) zero_ts ≡ p.ker
  pub app_found : get_or c.app_rx (get_circular_index seq_num) zero_ts ≡ p.app
  pub ip_found : get_or c.client_ips (get_circular_index seq_num) [] ≡ take 15 p.client_ip
  pub port_found : get_or c.client_ports (get_circular_index seq_num) 0 ≡ p.client_port

-- The arrays after a packet is stored.
stored_in : Stored → Correlation → Correlation
stored_in p c = record {
  client_ips = set c.client_ips (get_circular_index p.seq_num) (take 15 p.client_ip);
  client_ports = set c.client_ports (get_circular_index p.seq_num) p.client_port;
  hw_rx = set c.hw_rx (get_circular_index p.seq_num) p.hw;
  ker_rx = set c.ker_rx (get_circular_index p.seq_num) p.ker;
  app_rx = set c.app_rx (get_circular_index p.seq_num) p.app;
}

pub index-ne : (a b : ℕ) → b < a → a < b + 50000 → get_circular_index a ≢ get_circular_index b
unfolding get_circular_index
index-ne a b lt near = λ e. omega arith

pub index-lt : (n : ℕ) → get_circular_index n < 50000
unfolding get_circular_index
index-lt n = omega arith

module _ (p : Stored) {c : Correlation} (v : IsSized c) where
  stored_in-IsSized : IsSized (stored_in p c)
  unfolding stored_in
  stored_in-IsSized = record {
    ips_sized =
        length-set c.client_ips (get_circular_index p.seq_num) (take 15 p.client_ip) ∙ v.ips_sized;
    ports_sized =
        length-set c.client_ports (get_circular_index p.seq_num) p.client_port ∙ v.ports_sized;
    hw_sized = length-set c.hw_rx (get_circular_index p.seq_num) p.hw ∙ v.hw_sized;
    ker_sized = length-set c.ker_rx (get_circular_index p.seq_num) p.ker ∙ v.ker_sized;
    app_sized = length-set c.app_rx (get_circular_index p.seq_num) p.app ∙ v.app_sized;
  }

  stored_in-Finds : Finds (stored_in p c) p.seq_num p
  unfolding stored_in
  stored_in-Finds =
      let i = get_circular_index p.seq_num in
      let inside = index-lt p.seq_num in
      record {
        hw_found = get_or-set_self c.hw_rx i p.hw zero_ts (omega (arith, v.hw_sized));
        ker_found = get_or-set_self c.ker_rx i p.ker zero_ts (omega (arith, v.ker_sized));
        app_found = get_or-set_self c.app_rx i p.app zero_ts (omega (arith, v.app_sized));
        ip_found =
            get_or-set_self c.client_ips i (take 15 p.client_ip) [] (omega (arith, v.ips_sized));
        port_found =
            get_or-set_self c.client_ports i p.client_port 0 (omega (arith, v.ports_sized));
      }

-- A packet with another index leaves what was found.
stored_in-Finds_other :
    (p q : Stored) (n : ℕ) (c : Correlation)
    → get_circular_index p.seq_num ≢ get_circular_index n
    → Finds c n q
    → Finds (stored_in p c) n q
unfolding stored_in
stored_in-Finds_other p q n c other f =
    let i = get_circular_index p.seq_num in
    let j = get_circular_index n in
    record {
      hw_found = get_or-set_ne c.hw_rx i j p.hw zero_ts other ∙ f.hw_found;
      ker_found = get_or-set_ne c.ker_rx i j p.ker zero_ts other ∙ f.ker_found;
      app_found = get_or-set_ne c.app_rx i j p.app zero_ts other ∙ f.app_found;
      ip_found = get_or-set_ne c.client_ips i j (take 15 p.client_ip) [] other ∙ f.ip_found;
      port_found = get_or-set_ne c.client_ports i j p.client_port 0 other ∙ f.port_found;
    }

-- The packets one after the other.
pub store_all : List Stored → Option Correlation → Option Correlation
store_all [] c = c
store_all (p ∷ ps) c = store_all ps (store p c)

-- Packets whose numbers follow `n` without a gap, as uint32_t.
abbrev pub Follow : ℕ → List Stored → Type 0
Follow n [] = Unit
Follow n (p ∷ ps) = (p.seq_num ≡ n + 1) × Follow (n + 1) ps

store_all-Finds :
    (ps : List Stored) (q : Stored) (n : ℕ) (c : Correlation)
    → q.seq_num ≤ n
    → n + length ps < q.seq_num + 50000
    → Follow n ps
    → Finds c q.seq_num q
    → (d : Correlation) × (store_all ps (some c) ≡ some d) × Finds d q.seq_num q
unfolding store_all store_server_rx_timestamps stored_in
store_all-Finds [] q n c le near follow f = (c, refl, f)
store_all-Finds (p ∷ ps) q n c le near (next, follow) f =
    let other : get_circular_index p.seq_num ≢ get_circular_index q.seq_num =
      index-ne p.seq_num q.seq_num (omega (arith, next)) (omega (arith, next)) in
    store_all-Finds ps q (n + 1) (stored_in p c) (omega arith) (omega arith) follow
      (stored_in-Finds_other p q q.seq_num c other f)

-- Once a packet is stored, its timestamps and its client are found under its sequence number while less
-- than 50000 further packets are stored, whose numbers follow without a gap and without going round.
pub store_server_rx_timestamps-Finds :
    (q : Stored) (ps : List Stored) {c : Correlation}
    → IsSized c
    → length ps < 50000
    → Follow q.seq_num ps
    → (d : Correlation) × (store_all ps (store q (some c)) ≡ some d) × Finds d q.seq_num q
unfolding store_server_rx_timestamps stored_in
store_server_rx_timestamps-Finds q ps {c} v few follow =
    store_all-Finds ps q q.seq_num (stored_in q c) (omega arith) (omega arith) follow
      (stored_in-Finds q v)

pub empty_correlation-IsSized : IsSized empty_correlation
empty_correlation-IsSized = record {
  ips_sized = length-replicate {A = Bytes} 50000 [];
  ports_sized = length-replicate {A = ℕ} 50000 0;
  hw_sized = length-replicate 50000 zero_ts;
  ker_sized = length-replicate 50000 zero_ts;
  app_sized = length-replicate 50000 zero_ts;
}
