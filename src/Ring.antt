-- ===== src/Ring.antt =====
-- What the three ring buffers of the C programs share: indices that wrap by a mask of ones
-- (Ring/Index) and the entries between two indices (Ring/Segment).
pub mod Index
pub mod Segment
pub mod Contents
pub mod Size
pub mod Ends
