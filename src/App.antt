-- ===== src/App.antt =====
-- internal/app: the command line.
pub mod Config
