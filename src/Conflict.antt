-- ===== src/Conflict.antt =====
-- crates/stratosync-daemon/src/sync/conflict.rs: what becomes of a file that was changed here and
-- at the remote.
pub mod Site
pub mod Resolve
pub mod Kept
mod Examples
