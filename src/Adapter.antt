-- ===== src/Adapter.antt =====
-- crates/pask-adapter
pub mod Error
pub mod Retry
pub mod Dedup
pub mod Buildium
