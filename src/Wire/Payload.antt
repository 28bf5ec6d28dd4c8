-- ===== src/Wire/Payload.antt =====
-- crates/pask-wire/src/payload.rs: the payload and its validation.
pub mod Fields
pub mod Strings
pub mod Validate
