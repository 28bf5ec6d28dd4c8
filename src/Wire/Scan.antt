-- ===== src/Wire/Scan.antt =====
-- crates/pask-wire/src/receipt_cbor.rs: the preflight of CBOR bytes under a budget.
pub mod Machine
pub mod Utf8
pub mod Roles
pub mod Atoms
pub mod Items
pub mod Steps
pub mod Enough
pub mod Tests
