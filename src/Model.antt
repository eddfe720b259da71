-- ===== src/Model.antt =====
-- internal/model: the data that the backends, the collector and the renderers exchange.
pub mod State
pub mod Sample
pub mod Scheduler
pub mod Stats
pub mod Sources
