-- ===== src/Attest/Error.antt =====
-- crates/pask-attest/src/error.rs, and the instants that the errors carry.
use pask_workspace.Prelude.{ℕ, Text, Option, none, some, Result, ok, err}
use pask_workspace.Wire.Error.{Error, display}

-- `SystemTime`: nanoseconds from its least value, `i64::MIN` seconds from the Unix epoch.
abbrev pub SystemTime : Type 0
SystemTime = ℕ

pub data AttestationError : Type 0 where
  invalid_signature : AttestationError
  -- `not_after`, `now`
  expired_evidence : SystemTime → SystemTime → AttestationError
  -- `not_before`, `now`
  clock_skew : SystemTime → SystemTime → AttestationError
  unknown_root_of_trust : AttestationError
  malformed_quote : Text → AttestationError
  unsupported_tee_class : Text → AttestationError
  measured_boot_mismatch : AttestationError
  missing_claim : Text → AttestationError
  wire_error : Text → AttestationError

-- `required`
abbrev pub required : {A : Type 0} → Option A → Text → Result AttestationError A
required none claim = err (AttestationError.missing_claim claim)
required (some a) claim = ok a

-- `map_err(|error| AttestationError::WireError(error.to_string()))`
abbrev pub wire : {A : Type 0} → Result Error A → Result AttestationError A
wire (ok a) = ok a
wire (err error) = err (AttestationError.wire_error (display error))
