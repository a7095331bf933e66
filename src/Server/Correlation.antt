-- ===== src/Server/Correlation.antt =====
-- The correlation arrays of src/timestamp_server.c, with `get_circular_index` of
-- include/timestamp_common.h: what is known of a packet is kept under its sequence number modulo 50000.
pub mod Kept
use trading_latency_benchmar.Prelude.{
  ℕ, ◌+◌, ◌*◌, ◌%◌, ◌^◌, Bool, Option, none, some, List, set, get_or, take, replicate,
  if◌then◌else◌, ◌&&◌, Bytes, [],
}

-- `struct timespec`
pub record Timespec : Type 0 where
  pub tv_sec : ℕ
  pub tv_nsec : ℕ

-- ts.tv_sec * 1000000000ULL + ts.tv_nsec
abbrev pub to_ns : Timespec → ℕ
to_ns ts = (ts.tv_sec * 1000000000 + ts.tv_nsec) % 2 ^ 64

abbrev pub zero_ts : Timespec
zero_ts = record { tv_sec = 0; tv_nsec = 0 }

unfoldable pub get_circular_index : ℕ → ℕ
get_circular_index seq_num = seq_num % 50000

-- The five arrays, each of 50000 places.
pub record Correlation : Type 0 where
  pub client_ips : List Bytes
  pub client_ports : List ℕ
  pub hw_rx : List Timespec
  pub ker_rx : List Timespec
  pub app_rx : List Timespec

-- Zeroed memory.
abbrev pub empty_correlation : Correlation
empty_correlation = record {
  client_ips = replicate 50000 [];
  client_ports = replicate 50000 0;
  hw_rx = replicate 50000 zero_ts;
  ker_rx = replicate 50000 zero_ts;
  app_rx = replicate 50000 zero_ts;
}

-- Whether the aligned or the plain allocation of an array succeeds.
pub record ArrayMemory : Type 0 where
  pub ips : Bool
  pub ports : Bool
  pub hw : Bool
  pub ker : Bool
  pub app : Bool

-- If one array cannot be had the others are freed.
unfoldable pub init_server_tx_correlation : ArrayMemory → Option Correlation
init_server_tx_correlation memory =
    if memory.ips && memory.ports && memory.hw && memory.ker && memory.app
    then some empty_correlation
    else none

-- `store_server_rx_timestamps`; nothing is done unless all arrays are there. INET_ADDRSTRLEN is 16.
unfoldable pub store_server_rx_timestamps :
    ℕ → Timespec → Timespec → Timespec → Bytes → ℕ → Option Correlation → Option Correlation
unfolding get_circular_index
store_server_rx_timestamps seq_num hw ker app client_ip client_port none = none
store_server_rx_timestamps seq_num hw ker app client_ip client_port (some c) =
    let index = get_circular_index seq_num in
    some (record {
      client_ips = set c.client_ips index (take 15 client_ip);
      client_ports = set c.client_ports index client_port;
      hw_rx = set c.hw_rx index hw;
      ker_rx = set c.ker_rx index ker;
      app_rx = set c.app_rx index app;
    })
