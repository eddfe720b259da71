-- ===== src/Output.antt =====
-- internal/output: which threads of a report are printed, and in which order.
pub mod Filter
