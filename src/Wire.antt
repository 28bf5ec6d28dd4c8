-- ===== src/Wire.antt =====
-- crates/pask-wire
pub mod Error
pub mod Merkle
pub mod Digest
pub mod Cbor
pub mod Entry
pub mod Proof
pub mod Receipt
pub mod Inspection
pub mod Verification
pub mod Statement
pub mod Scan
pub mod Json
pub mod Payload
pub mod Chain
