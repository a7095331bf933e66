-- ===== src/Server.antt =====
-- The round-trip server, ec2_timestamping_programs/src/timestamp_server.c: the queue of return packets
-- between the RX and the TX thread, the correlation arrays, and what each thread does with a packet.
pub mod Requests
pub mod Correlation
pub mod Sender
pub mod Oneway
pub mod Roundtrip
mod Tests
