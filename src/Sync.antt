-- ===== src/Sync.antt =====
-- crates/stratosync-core/src/base_store.rs and crates/stratosync-daemon/src/sync/versioning.rs, on
-- the state that the synchronisation tasks share.
pub mod World
pub mod Headers
pub mod BaseStore
pub mod Versioning
pub mod Rules
pub mod Backed
pub mod Captures
mod Examples
