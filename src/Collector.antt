-- ===== src/Collector.antt =====
-- internal/collector: report windows, the snapshot accumulator, the event accumulator, and their
-- merge into one report.
pub mod Grid
pub mod Counters
pub mod Accumulator
pub mod EventAccumulator
pub mod Totals
pub mod Hybrid
pub mod Loop
