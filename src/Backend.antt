-- ===== src/Backend.antt =====
-- crates/stratosync-core/src/backend: what the providers of changes make of the answers of the remote.
pub mod Http
pub mod Drive
pub mod Onedrive
pub mod Parents
pub mod Chains
pub mod Pages
pub mod Reports
pub mod Hashes
pub mod Forms
mod Examples
