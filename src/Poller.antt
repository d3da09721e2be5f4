-- ===== src/Poller.antt =====
-- crates/stratosync-daemon/src/sync/poller.rs: the waits between polls, the full listing and the
-- changes since a token.
pub mod Run
pub mod Diff
pub mod Full
pub mod Delta
pub mod Intervals
pub mod Steps
pub mod FullSteps
pub mod Refines
pub mod DeltaSteps
pub mod Hidden
pub mod HiddenSteps
pub mod Excluded
pub mod Tokens
pub mod Progress
pub mod Examples
