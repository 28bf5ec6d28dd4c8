-- ===== src/Wire/Statement/Issuer.antt =====
-- crates/pask-wire/src/transparent_statement.rs: `check_issuer`, `check_digest` and
-- `subject_finding`. CBOR, SHA-256 and Ed25519 are parameters; a panic is `none`.
use pask_workspace.Prelude.{
  ℕ, ℤ, leb, ◌&&◌, ◌||◌, not, if◌then◌else◌, Bool, true, false, List, Option, none, some, String,
  Text, length, bytes_eq,
}
use pask_workspace.Wire.Cbor.Labels.{is_some_int}
use pask_workspace.Wire.Inspection.{Status, Finding}
use pask_workspace.Wire.Inspection.Claims.{Claims}
use pask_workspace.Wire.Receipt.{sig_structure}
use pask_workspace.Wire.Verification.{
  TrustInputOrigin, BindingProvenance, TsPublicKey, VerificationLibraries,
}
use pask_workspace.Wire.Verification.Associate.{in_window}
use pask_workspace.Wire.Verification.Proofs.{is_passed, verifies}
use pask_workspace.Wire.Statement.{
  statement_finding, statement_passed, statement_failed, OuterStatementReport, bounded_text,
}

-- `unset`
abbrev pub statement_unset : String → Finding
statement_unset code = statement_finding Status.unestablished code

-- IssuerKeyInput
pub record IssuerKeyInput : Type 0 where
  pub public_key : TsPublicKey
  pub algorithm : ℤ
  pub issuer : Text
  pub provenance : BindingProvenance
  pub origin : TrustInputOrigin
  pub evaluation_time : Option ℤ
  pub valid_from : Option ℤ
  pub valid_until : Option ℤ
  pub explicitly_distrusted : Bool

-- The fields of the report that `check_issuer` writes.
pub record IssuerFindings : Type 0 where
  pub issuer_signature : Finding
  pub actual_issuer_key : Option (List ℕ)
  pub issuer_key_association : Finding
  pub issuer_identity_trust : Finding

-- `authenticated`
abbrev pub authenticated_provenance : BindingProvenance → Bool
authenticated_provenance (BindingProvenance.caller_authenticated authority evidence_ref) =
    bounded_text authority && bounded_text evidence_ref
authenticated_provenance _ = false

-- `bounded_provenance`
abbrev pub bounded_provenance : BindingProvenance → Bool
bounded_provenance BindingProvenance.missing = true
bounded_provenance (BindingProvenance.unauthenticated origin) = leb (length origin) 8192
bounded_provenance (BindingProvenance.caller_authenticated authority evidence_ref) =
    leb (length authority) 8192 && leb (length evidence_ref) 8192

abbrev pub is_claimed : Option Claims → Text → Bool
is_claimed none issuer = false
is_claimed (some claims) issuer = bytes_eq claims.issuer issuer

abbrev pub is_local : TrustInputOrigin → Bool
is_local TrustInputOrigin.local_simulation = true
is_local TrustInputOrigin.caller_authenticated_external = false

abbrev pub is_current_at : Option ℤ → Option ℤ → Option ℤ → Bool
is_current_at none from until = false
is_current_at (some now) from until = in_window now from until

-- The finding on the association of the key.
unfoldable pub issuer_association : Option Claims → IssuerKeyInput → Finding
issuer_association claims k =
    if is_claimed claims k.issuer && authenticated_provenance k.provenance
    then statement_passed "actual_issuer_key_caller_authenticated_binding"
    else statement_unset "issuer_binding_provenance_missing_or_mismatched"

-- The finding on the trust of the issuer.
unfoldable pub issuer_trust : IssuerKeyInput → Finding → Finding
issuer_trust k association =
    if k.explicitly_distrusted
    then statement_failed "issuer_key_explicitly_distrusted"
    else if not (is_passed association.status)
    then statement_unset "issuer_binding_unestablished"
    else if not (is_current_at k.evaluation_time k.valid_from k.valid_until)
    then statement_unset "issuer_validity_not_established"
    else if is_local k.origin
    then statement_unset "issuer_local_simulation_only"
    else statement_passed "issuer_trust_conditional_on_caller_origin"

-- From the verified signature on.
unfoldable pub after_signature :
    Bool → OuterStatementReport → IssuerKeyInput → List ℕ → IssuerFindings → IssuerFindings
after_signature false outer k key s = record s {
  issuer_signature = statement_failed "issuer_signature_invalid";
}
after_signature true outer k key s = record s {
  issuer_signature = statement_passed "issuer_signature_exact_bytes";
  actual_issuer_key = some key;
  issuer_key_association = issuer_association outer.claims k;
  issuer_identity_trust = issuer_trust k (issuer_association outer.claims k);
}

module _ (lib : VerificationLibraries) where
  -- `key.zip(signature).is_some_and(…)`
  abbrev pub signature_holds :
      Option lib.receipts.Key → Option lib.receipts.Signature → List ℕ → Bool
  signature_holds key none signed = false
  signature_holds key (some signature) signed = verifies lib key signed signature

  -- The bytes that are signed; `none` where a part is not there or is not written.
  abbrev pub signed_statement : Option (List ℕ) → Option (List ℕ) → Option (List ℕ)
  signed_statement (some protected) (some payload) =
      lib.receipts.cbor.into_writer (sig_structure protected payload)
  signed_statement _ _ = none

  abbrev pub verified_with :
      Option (List ℕ)
      → Option (List ℕ)
      → OuterStatementReport
      → IssuerKeyInput
      → List ℕ
      → IssuerFindings
      → Option IssuerFindings
  verified_with (some signed) (some signature) outer k key s = some (
      after_signature
        (signature_holds (lib.from_bytes key) (lib.receipts.from_slice signature) signed) outer k
        key s)
  verified_with _ _ outer k key s = none

  -- The signature under an Ed25519 key.
  unfoldable pub check_signed :
      OuterStatementReport → IssuerKeyInput → TsPublicKey → IssuerFindings → Option IssuerFindings
  check_signed outer k (TsPublicKey.unsupported_key key_type bytes) s =
      some (record s { issuer_signature = statement_finding Status.unsupported "issuer_key_type" })
  check_signed outer k (TsPublicKey.ed25519 key) s =
      verified_with (signed_statement outer.protected_bytes outer.payload_bytes)
        outer.signature_bytes outer k key s

  unfoldable pub check_issuer :
      OuterStatementReport → Option IssuerKeyInput → IssuerFindings → Option IssuerFindings
  check_issuer outer none s =
      some (record s { issuer_signature = statement_unset "issuer_key_absent" })
  check_issuer outer (some k) s =
      if not (bounded_text k.issuer) || not (bounded_provenance k.provenance)
      then some (record s { issuer_key_association = statement_failed "issuer_input_limit" })
      else if not (is_passed outer.support.status)
      then some (record s { issuer_signature = outer.support })
      else if not (is_some_int outer.algorithm k.algorithm)
      then some (record s { issuer_signature = statement_failed "issuer_algorithm_key_mismatch" })
      else check_signed outer k k.public_key s

-- DigestTarget and ExpectedDigest
pub data DigestTarget : Type 0 where
  candidate_entry_sha256 payload_sha256 : DigestTarget

pub record ExpectedDigest : Type 0 where
  pub target : DigestTarget
  pub expected : List ℕ
  pub digest_provenance : BindingProvenance
  pub digest_source : TrustInputOrigin

abbrev pub digest_input : DigestTarget → Option (List ℕ) → Option (List ℕ) → Option (List ℕ)
digest_input DigestTarget.candidate_entry_sha256 entry payload = entry
digest_input DigestTarget.payload_sha256 entry payload = payload

-- `check_digest`: the findings on equality and origin.
abbrev pub digest_findings :
    (List ℕ → List ℕ) → ExpectedDigest → Option (List ℕ) → Option (Finding × Finding)
digest_findings sha256 d none = none
digest_findings sha256 d (some bytes) = some (
  if bytes_eq (sha256 bytes) d.expected
      then statement_passed "explicit_expected_digest_equal"
      else statement_failed "expected_digest_mismatch",
  if authenticated_provenance d.digest_provenance && not (is_local d.digest_source)
      then statement_passed "digest_origin_caller_assertion"
      else statement_unset "digest_equality_not_authenticated_origin",
)

unfoldable pub check_digest :
    (List ℕ → List ℕ)
    → Option ExpectedDigest
    → Option (List ℕ)
    → Option (List ℕ)
    → Finding × Finding
    → Option (Finding × Finding)
check_digest sha256 none entry payload findings = some findings
check_digest sha256 (some d) entry payload findings =
    digest_findings sha256 d (digest_input d.target entry payload)
