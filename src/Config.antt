-- ===== src/Config.antt =====
-- crates/stratosync-core/src/config/mod.rs: the parts that decide, not those that read TOML.
pub mod Parse
pub mod Window
pub mod Duration
pub mod Schedule
pub mod RoundTrip
mod Examples
