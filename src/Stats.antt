-- ===== src/Stats.antt =====
-- The statistics part of timestamp_common.{h,c}.
pub mod Entry
pub mod Collector
pub mod Delta
pub mod Percentile
pub mod Analysis
mod Tests
