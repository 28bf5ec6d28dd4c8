-- ===== src/Attest/Evidence.antt =====
-- crates/pask-attest/src/platform_evidence.rs and crates/pask-attest/src/sealed_evidence.rs.
use pask_workspace.Prelude.{ℕ, Text, ascii, bytes_eq, Result, ok, ◌>>◌, guard}
use pask_workspace.Wire.Digest.{validate_sha256}
use pask_workspace.Attest.Error.{AttestationError, wire}

pub record PlatformEvidence : Type 0 where
  pub encoding : Text
  pub digest : Text

pub record SealedEvidence : Type 0 where
  pub digest : Text
  pub size_bytes : ℕ
  pub encoding : Text

abbrev opaque_encoding : Text
opaque_encoding = ascii "opaque/1"

unfoldable pub platform_from_wire : Text → Text → Result AttestationError PlatformEvidence
platform_from_wire encoding digest = do
  guard (bytes_eq encoding opaque_encoding)
      (AttestationError.malformed_quote (ascii "platformEvidence.encoding must be 'opaque/1'"))
  wire (validate_sha256 digest)
  ok (record { encoding = encoding; digest = digest })

unfoldable pub sealed_from_wire : Text → ℕ → Text → Result AttestationError SealedEvidence
sealed_from_wire digest size_bytes encoding = do
  guard (bytes_eq encoding opaque_encoding)
      (AttestationError.malformed_quote (ascii "sealedEvidence.encoding must be 'opaque/1'"))
  wire (validate_sha256 digest)
  ok (record { digest = digest; size_bytes = size_bytes; encoding = encoding })
