-- ===== src/Collector/EventAccumulator.antt =====
-- internal/collector/event_accumulator.go: per-thread statistics from scheduler events.
pub mod Track
pub mod Windows
pub mod Observe
pub mod Advance
pub mod Invariant
pub mod Runs
pub mod Conservation
pub mod Tests
