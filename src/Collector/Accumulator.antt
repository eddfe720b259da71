-- ===== src/Collector/Accumulator.antt =====
-- internal/collector/accumulator.go: per-thread statistics from snapshots.
pub mod Windows
pub mod Schedstat
pub mod Delays
pub mod Gaps
pub mod Finalize
pub mod Scan
pub mod Observe
pub mod Tests
pub mod Meters
