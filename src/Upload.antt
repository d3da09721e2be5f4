-- ===== src/Upload.antt =====
-- crates/stratosync-daemon/src/sync/upload_queue.rs: the loop that debounces writes and starts
-- uploads, and the upload itself.
pub mod Loop
pub mod Run
pub mod Bounds
pub mod Deadline
pub mod Finish
pub mod Sent
mod Examples
