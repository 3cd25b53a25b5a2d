-- ===== src/Obs.antt =====
-- The observability package, obs.
pub mod Trace
pub mod Percentile
pub mod Latency
pub mod Stats
