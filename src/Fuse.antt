-- ===== src/Fuse.antt =====
-- crates/stratosync-daemon/src/fuse: what the daemon does for the calls of the kernel.
pub mod Errno
pub mod Handler
pub mod Names
pub mod Write
pub mod Remove
pub mod Rename
pub mod Tasks
pub mod Open
pub mod Hydrate
pub mod Directory
pub mod Serve
pub mod Leaves
pub mod Written
pub mod Moved
pub mod Gone
pub mod Deleted
pub mod Created
pub mod Waiting
pub mod Settled
pub mod Fetched
pub mod Finished
mod Examples
