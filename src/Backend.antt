-- ===== src/Backend.antt =====
-- internal/backend: the sources of snapshots and events.
pub mod Hybrid
pub mod Files
pub mod Proc
pub mod Taskstats
pub mod Ebpf
pub mod Netlink
