-- ===== src/Cache.antt =====
-- crates/stratosync-daemon/src/cache/mod.rs: the eviction loop.
pub mod Disk
pub mod Evict
pub mod Terminates
pub mod Bases
pub mod Shared
mod Examples
