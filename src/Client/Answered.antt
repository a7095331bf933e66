-- ===== src/Client/Answered.antt =====
-- A packet of `run_client_roundtrip` of src/timestamp_client.c on its way to the server of
-- src/timestamp_server.c and back to `rx_thread_func`.
use trading_latency_benchmar.Prelude.{ℕ, ◌≡◌, length, read_u32}
use trading_latency_benchmar.Server.Sender.{Received, request_of, packet_seq, answer_port, prepare}

-- What the server makes of the client's packet.
pub record IsAnswered (rx_port n : ℕ) (r : Received) : Type 0 where
  pub understood : packet_seq r ≡ n
  pub goes_back : answer_port r ≡ rx_port
  pub answer_number : read_u32 (prepare (request_of r)).bytes 0 ≡ n
  pub answer_size : length (prepare (request_of r)).bytes ≡ 4
