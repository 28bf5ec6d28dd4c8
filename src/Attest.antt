-- ===== src/Attest.antt =====
-- crates/pask-attest: attestation quotes and their verifier.
pub mod Error
pub mod TeeClass
pub mod Validity
pub mod Boot
pub mod Evidence
pub mod Attestation
pub mod Frame
pub mod Verifier
pub mod Tests
