-- ===== src/Wire/Verification.antt =====
-- crates/pask-wire/src/receipt_verification.rs: the trust context, the limits and the report. The
-- libraries are parameters: CBOR, SHA-256, URIs and Ed25519.
pub mod Context
pub mod Keys
pub mod Proofs
pub mod Associate
pub mod Run
pub mod Trust
pub mod Kept
pub mod Rows
pub mod Signed
pub mod Accepted
pub mod Attempts
pub mod Candidates
pub mod Samples
mod Tests
use pask_workspace.Prelude.{ℕ, ℤ, ◌&&◌, Bool, true, List, [], ◌∷◌, Option, some, none, String, Text}
use pask_workspace.Wire.Receipt.{ReceiptLibraries}
use pask_workspace.Wire.Inspection.{Status, Finding, Policy, bounded}
use pask_workspace.Wire.Inspection.Report.{Envelope}

-- TrustInputOrigin
pub data TrustInputOrigin : Type 0 where
  local_simulation caller_authenticated_external : TrustInputOrigin

-- BindingProvenance
pub data BindingProvenance : Type 0 where
  missing : BindingProvenance
  unauthenticated : Text → BindingProvenance
  caller_authenticated : Text → Text → BindingProvenance

-- TsPublicKey
pub data TsPublicKey : Type 0 where
  ed25519 : List ℕ → TsPublicKey
  unsupported_key : Text → List ℕ → TsPublicKey

-- TsKeyAssociation
pub record TsKeyAssociation : Type 0 where
  pub service_identity : Text
  pub public_key : TsPublicKey
  pub algorithm : ℤ
  pub provenance : BindingProvenance
  pub kid_hint : Option (List ℕ)
  pub valid_from : Option ℤ
  pub valid_until : Option ℤ
  pub explicitly_distrusted : Bool

-- RotationPolicy
pub data RotationPolicy : Type 0 where
  valid_at_evaluation_time_v1 : RotationPolicy

-- TsTrustContext
pub record TsTrustContext : Type 0 where
  pub accepted_ts_identities : List Text
  pub associations : List TsKeyAssociation
  pub evaluation_time : Option ℤ
  pub rotation_policy : Option RotationPolicy
  pub provisioned_by : Option Text
  pub origin : TrustInputOrigin

-- VerificationLimits
pub record VerificationLimits : Type 0 where
  pub max_statement_bytes : ℕ
  pub max_statement_cbor_items : ℕ
  pub max_statement_cbor_nesting : ℕ
  pub max_statement_map_entries : ℕ
  pub max_associations : ℕ
  pub max_accepted_identities : ℕ
  pub max_candidate_keys : ℕ
  pub max_signature_attempts : ℕ
  pub max_trust_field_bytes : ℕ

abbrev pub default_verification_limits : VerificationLimits
default_verification_limits = record {
  max_statement_bytes = 1048576;
  max_statement_cbor_items = 4096;
  max_statement_cbor_nesting = 16;
  max_statement_map_entries = 64;
  max_associations = 64;
  max_accepted_identities = 64;
  max_candidate_keys = 16;
  max_signature_attempts = 256;
  max_trust_field_bytes = 8192;
}

-- VerificationLimits::valid
unfoldable pub limits_valid : VerificationLimits → Bool
limits_valid l =
    bounded l.max_statement_bytes default_verification_limits.max_statement_bytes
    && bounded l.max_statement_cbor_items default_verification_limits.max_statement_cbor_items
    && bounded l.max_statement_cbor_nesting default_verification_limits.max_statement_cbor_nesting
    && bounded l.max_statement_map_entries default_verification_limits.max_statement_map_entries
    && bounded l.max_associations default_verification_limits.max_associations
    && bounded l.max_accepted_identities default_verification_limits.max_accepted_identities
    && bounded l.max_candidate_keys default_verification_limits.max_candidate_keys
    && bounded l.max_signature_attempts default_verification_limits.max_signature_attempts
    && bounded l.max_trust_field_bytes default_verification_limits.max_trust_field_bytes

-- ReceiptVerificationPolicy
pub record ReceiptVerificationPolicy : Type 0 where
  pub envelope : Policy
  pub limits : VerificationLimits

-- VerifyingKeyEvidence
pub record VerifyingKeyEvidence : Type 0 where
  pub public_key : List ℕ
  pub sha256 : List ℕ
  pub association_indices : List ℕ
  pub kid_hint_match_indices : List ℕ

-- ProofVerification
pub record ProofVerification : Type 0 where
  pub proof_index : ℕ
  pub reconstructed_root : Option (List ℕ)
  pub root_reconstruction : Finding
  pub attached_root_equality : Finding
  pub ts_signature : Finding
  pub inclusion : Finding
  pub verifying_key_indices : List ℕ

-- ReceiptVerificationReport
pub record Report : Type 0 where
  pub statement_bytes : List ℕ
  pub envelope : Envelope
  pub trust_context : TsTrustContext
  pub policy : ReceiptVerificationPolicy
  pub policy_id : String
  pub candidate_entry : Option (List ℕ)
  pub candidate_derivation : Finding
  pub selected_policy : Finding
  pub candidate_keys : List VerifyingKeyEvidence
  pub key_configuration : List Finding
  pub proofs : List ProofVerification
  pub signature_attempts : ℕ
  pub ts_signature : Finding
  pub inclusion : Finding
  pub ts_key_association : Finding
  pub ts_identity_trust : Finding
  pub subject_policy : Finding
  pub issuer_signature : Finding
  pub application_policy : Finding
  pub hardware_appraisal : Finding
  pub acceptable_for_registration : Finding

pub record VerificationLibraries : Type 1 where
  pub receipts : ReceiptLibraries
  -- fluent-uri
  pub uri : Text → Bool
  -- ed25519-dalek: `VerifyingKey::from_bytes` and `verify_strict`
  pub from_bytes : List ℕ → Option receipts.Key
  pub verify_strict : receipts.Key → List ℕ → receipts.Signature → Bool

-- `finding`, `skipped`, `unestablished`, `failed` and `passed`
abbrev pub finding : Status → String → String → Finding
finding status code detail = record {
  status = status;
  code = code;
  detail = detail;
  evidence_refs = "encoded_receipt" ∷ "statement_bytes" ∷ "trust_context" ∷ "policy" ∷ [];
}

abbrev pub skipped : Finding
skipped =
    finding Status.not_evaluated "prerequisite_not_established" "A dependent check was not run."

abbrev pub unestablished : String → Finding
unestablished code =
    finding Status.unestablished code "Required independent evidence is absent; not acceptance."

abbrev pub failed : String → Finding
failed code = finding Status.failed code "Failed only the named dimension."

abbrev pub passed : String → Finding
passed code =
    finding Status.passed code "Passed only the named dimension under the explicit supplied inputs."
