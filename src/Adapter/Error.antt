-- ===== src/Adapter/Error.antt =====
-- crates/pask-adapter/src/error.rs and outcome.rs
use pask_workspace.Prelude.{ℕ, Bool, true, false, ◌&&◌, leb, Text}

pub data AdapterError : Type 0 where
  verification_failed : Text → AdapterError
  credential_missing : Text → AdapterError
  adapter_mismatch : Text → Text → AdapterError
  write_only_required : Text → AdapterError
  rate_limited : AdapterError
  server_error : ℕ → AdapterError
  transport : Text → AdapterError
  bad_request : ℕ → AdapterError
  serialization : Text → AdapterError
  invalid_response : Text → AdapterError
  invalid_base_url : Text → AdapterError
  dead_letter : Text → AdapterError
  partner_agreement_required : Text → Text → AdapterError
  invalid_retry_policy : AdapterError

unfoldable pub is_retryable : AdapterError → Bool
is_retryable AdapterError.rate_limited = true
is_retryable (AdapterError.server_error status) = leb 500 status && leb status 599
is_retryable (AdapterError.transport message) = true
is_retryable _ = false

-- A `SystemTime` is a number of nanoseconds from a fixed instant.
pub data AdapterOutcome : Type 0 where
  pushed : Text → Text → ℕ → AdapterOutcome
  already_pushed : Text → Text → AdapterOutcome
