-- ===== src/Types.antt =====
-- crates/stratosync-core/src/types/mod.rs: one child for each type, and the metadata of a remote
-- entry.
pub mod SyncStatus
pub mod FileKind
pub mod SyncError
pub mod Metadata
mod Examples
use stratosync.Common.{ℕ}

-- `FUSE_ROOT_INODE`
abbrev pub fuse_root_inode : ℕ
fuse_root_inode = 1
