-- ===== src/State.antt =====
-- crates/stratosync-core/src/state/mod.rs: the tables, the statements that the methods of
-- `StateDb` execute, and the methods, by what they serve.
pub mod Tables
pub mod Statement
pub mod Files
pub mod Remote
pub mod Cache
pub mod Poll
pub mod Health
pub mod Queue
pub mod Versions
pub mod Keys
pub mod Valid
pub mod Rows
pub mod Preserve
pub mod Reach
pub mod Keeps
pub mod Methods
pub mod RemoteKeeps
pub mod Invariant
pub mod Clear
pub mod Pending
pub mod Generation
pub mod Stale
pub mod Sorted
pub mod Candidates
pub mod Jobs
pub mod Streaks
pub mod Refresh
pub mod Prune
pub mod Counts
mod Examples
