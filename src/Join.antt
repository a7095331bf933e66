-- ===== src/Join.antt =====
-- src/timestamp_csvjoin.c: the program that joins the CSV files of the client and the server.
pub mod Line
pub mod Sequences
mod Tests
pub mod Records
pub mod Deltas
pub mod Output
pub mod Process
pub mod Files
pub mod Arguments
