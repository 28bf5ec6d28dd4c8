-- ===== src/Wire/Statement.antt =====
-- crates/pask-wire/src/transparent_statement.rs: the policy and the report of
-- `inspect_transparent_statement`, with its findings. Issuer and Subject have the checks after it.
pub mod Outer
pub mod Container
pub mod Issuer
pub mod Trusted
pub mod Subject
pub mod Mapped
pub mod Verify
pub mod Work
pub mod Gates
pub mod Approved
pub mod Evidence
pub mod Accepted
mod Tests
mod Runs
use pask_workspace.Prelude.{
  ℕ, ℤ, ◌==◌, leb, ltb, ◌&&◌, ◌||◌, not, is_empty, Bool, true, false, List, [], ◌∷◌, Option, none,
  some, String, Text, length,
}
use pask_workspace.Wire.Cbor.{Value}
use pask_workspace.Wire.Inspection.{Status, Finding}
use pask_workspace.Wire.Inspection.Claims.{Map, Claims}
use pask_workspace.Wire.Verification.{ReceiptVerificationPolicy}

-- `f`, `pass`, `fail` and `skip`
abbrev pub statement_finding : Status → String → Finding
statement_finding status code = record {
  status = status;
  code = code;
  detail =
      "Only the named dimension under the recorded local policy; not a general acceptance claim.";
  evidence_refs = "exact_statement_and_explicit_caller_inputs" ∷ [];
}

abbrev pub statement_passed : String → Finding
statement_passed code = statement_finding Status.passed code

abbrev pub statement_failed : String → Finding
statement_failed code = statement_finding Status.failed code

abbrev pub statement_skipped : Finding
statement_skipped = statement_finding Status.not_evaluated "prerequisite_not_established"

-- TransparentStatementPolicy
pub record TransparentStatementPolicy : Type 0 where
  pub strict_cross_map : Bool
  pub max_statement_bytes : ℕ
  pub max_receipts : ℕ
  pub receipt : ReceiptVerificationPolicy

-- ReceiptContainerState
pub data ReceiptContainerState : Type 0 where
  not_examined no_receipts malformed_receipts attached : ReceiptContainerState

-- OuterStatementReport
pub record OuterStatementReport : Type 0 where
  pub encoded_statement : List ℕ
  pub policy : TransparentStatementPolicy
  pub protected_bytes : Option (List ℕ)
  pub payload_bytes : Option (List ℕ)
  pub signature_bytes : Option (List ℕ)
  pub effective_headers : Map
  pub claims : Option Claims
  pub algorithm : Option ℤ
  pub protected_content_type : Option Text
  pub structure : Finding
  pub required_claims : Finding
  pub support : Finding
  pub selected_policy : Finding
  pub container : ReceiptContainerState
  pub receipts : List (List ℕ)

-- `bounded_text`
abbrev pub bounded_text : Text → Bool
bounded_text s = not (is_empty s) && leb (length s) 8192

-- The limits of the policy.
unfoldable pub outer_limits_valid : TransparentStatementPolicy → Bool
outer_limits_valid p = not (
    p.max_statement_bytes == 0
    || ltb 1048576 p.max_statement_bytes
    || p.max_receipts == 0
    || ltb 8 p.max_receipts)
