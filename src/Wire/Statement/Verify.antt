-- ===== src/Wire/Statement/Verify.antt =====
-- crates/pask-wire/src/transparent_statement.rs: `verify_transparent_statement`. The libraries are
-- parameters; a panic is `none`.
use pask_workspace.Prelude.{
  ℕ, suc, ◌&&◌, ◌||◌, not, if◌then◌else◌, is_empty, Bool, false, List, [], ◌∷◌, Option, none, some,
  String, Text, bytes_eq, ascii, Result, ok, err,
}
use pask_workspace.Wire.Error.{Error}
use pask_workspace.Wire.Entry.{derive_candidate_entry}
use pask_workspace.Wire.Json.{Json, Fields, JsonText, canonicalize_json}
use pask_workspace.Wire.Inspection.{Status, Finding}
use pask_workspace.Wire.Inspection.Claims.{Claims}
use pask_workspace.Wire.Verification.{TsTrustContext, Report, VerificationLibraries}
use pask_workspace.Wire.Verification.Proofs.{is_passed, is_failed, any_finding, all_findings}
use pask_workspace.Wire.Verification.Run.{verify_scitt_receipt}
use pask_workspace.Wire.Statement.{
  statement_finding, statement_passed, statement_failed, statement_skipped,
  TransparentStatementPolicy, OuterStatementReport, bounded_text,
}
use pask_workspace.Wire.Statement.Outer.{inspect_transparent_statement}
use pask_workspace.Wire.Statement.Issuer.{
  statement_unset, IssuerKeyInput, IssuerFindings, ExpectedDigest, check_issuer, check_digest,
}
use pask_workspace.Wire.Statement.Subject.{SubjectPolicy, is_no_subject, subject_finding}

-- StatementApplicationPolicy
pub record SignedJsonSite : Type 0 where
  pub require_subject : Bool
  pub require_all_receipts : Bool
  pub require_authenticated_digest : Bool

-- StatementVerificationInputs; no application policy is `none`.
pub record StatementInputs : Type 0 where
  pub issuer : Option IssuerKeyInput
  pub services : TsTrustContext
  pub expected_digest : Option ExpectedDigest
  pub subject : SubjectPolicy
  pub application : Option SignedJsonSite

-- StatementReceiptOutcome; the fields copied from the verification are in `verified`.
pub record StatementReceiptOutcome : Type 0 where
  pub index : ℕ
  pub encoded_receipt : List ℕ
  pub verified : Report
  pub receipt_policy : Finding
  pub receipt_subject : Finding

-- TransparentStatementReport
pub record StatementReport : Type 0 where
  pub outer : OuterStatementReport
  pub candidate_entry : Option (List ℕ)
  pub candidate_derivation : Finding
  pub digest : Finding × Finding
  pub issuer : IssuerFindings
  pub payload_context : Finding
  pub application_profile : Finding
  pub included_site_id : Option Text
  pub receipts : List StatementReceiptOutcome
  pub acceptable_receipt_indices : List ℕ
  pub registration_evidence : Finding
  pub subject_policy : Finding
  pub application_policy : Finding
  pub hardware_appraisal : Finding
  pub overall_profile : Finding

pub record StatementLibraries : Type 1 where
  pub verification : VerificationLibraries
  pub json_text : JsonText
  -- `serde_json::from_slice`
  pub from_slice : List ℕ → Result String Json

-- `x.acceptable_for_registration`, as a test
abbrev pub is_acceptable : StatementReceiptOutcome → Bool
is_acceptable x = is_passed x.verified.acceptable_for_registration.status

unfoldable pub acceptable_indices : List StatementReceiptOutcome → List ℕ
acceptable_indices [] = []
acceptable_indices (x ∷ xs) =
    let rest = acceptable_indices xs in if is_acceptable x then x.index ∷ rest else rest

abbrev pub any_receipt : (StatementReceiptOutcome → Bool) → List StatementReceiptOutcome → Bool
any_receipt test [] = false
any_receipt test (x ∷ xs) = test x || any_receipt test xs

-- The finding on the subjects of the acceptable receipts.
unfoldable pub subject_evidence : List StatementReceiptOutcome → Finding
subject_evidence receipts =
    if any_receipt (λ x. is_acceptable x && is_passed x.receipt_subject.status) receipts
    then statement_passed "acceptable_receipt_has_subject_binding"
    else if any_receipt (λ x. is_acceptable x && is_failed x.receipt_subject.status) receipts
    then statement_failed "acceptable_receipt_subject_contradiction"
    else statement_unset "subject_binding_not_established_for_acceptable_receipt"

abbrev pub profile_finding : Option Text → Finding
profile_finding none = statement_failed "application_protected_content_type_required"
profile_finding (some content_type) =
    if bytes_eq content_type (ascii "application/json; profile=pask71-software-site/1")
    then statement_passed "declared_software_site_v1"
    else statement_finding Status.unsupported "application_declared_profile"

-- `required`
abbrev pub required_findings : StatementReport → List Finding
required_findings r =
    r.outer.required_claims ∷ r.outer.support ∷ r.payload_context ∷ r.issuer.issuer_signature
    ∷ r.issuer.issuer_key_association ∷ r.issuer.issuer_identity_trust ∷ r.registration_evidence
    ∷ r.application_profile ∷ []

-- A receipt that the policy on all receipts refuses.
abbrev pub is_refused : Bool → StatementReceiptOutcome → Bool
is_refused require_subject x =
    not (is_acceptable x) || (require_subject && not (is_passed x.receipt_subject.status))

unfoldable pub digest_policy : Finding × Finding → Finding
digest_policy (equality, origin) =
    if is_failed equality.status
    then statement_failed "expected_digest_mismatch"
    else statement_unset "authenticated_digest_not_established"

unfoldable pub application_finding : SignedJsonSite → StatementReport → Finding
application_finding a r =
    if any_finding is_failed (required_findings r)
    then statement_failed "software_application_prerequisite_failed"
    else if not (all_findings is_passed (required_findings r))
    then statement_unset "software_application_prerequisite_unestablished"
    else if a.require_all_receipts && any_receipt (is_refused a.require_subject) r.receipts
    then statement_failed "explicit_all_receipts_application_policy"
    else if a.require_subject && not (is_passed r.subject_policy.status)
    then r.subject_policy
    else if a.require_authenticated_digest
        && (not (is_passed r.digest.0.status) || not (is_passed r.digest.1.status))
    then digest_policy r.digest
    else statement_passed "signed_json_site_v1_only_not_pser_or_hardware"

-- `v.get("site")`, `get("id")` and `as_str`
unfoldable pub json_field : Text → Fields → Option Json
json_field name Fields.end = none
json_field name (Fields.field key value fields) =
    let later = json_field name fields in if bytes_eq key name then some value else later

abbrev pub json_get : Text → Option Json → Option Json
json_get name (some (Json.object fields)) = json_field name fields
json_get name _ = none

abbrev pub json_text_of : Option Json → Option Text
json_text_of (some (Json.string t)) = some t
json_text_of _ = none

abbrev pub bounded_site : Option Text → Option Text
bounded_site none = none
bounded_site (some site) = if bounded_text site then some site else none

module _ (lib : StatementLibraries) where
  abbrev pub is_canonical : Result Error Text → List ℕ → Bool
  is_canonical (err e) payload = false
  is_canonical (ok canonical) payload = bytes_eq canonical payload

  abbrev pub parsed_site : Result String Json → Option Text
  parsed_site (err e) = none
  parsed_site (ok value) =
      bounded_site (json_text_of (json_get (ascii "id") (json_get (ascii "site") (some value))))

  -- The site of a canonical payload.
  unfoldable pub included_site : List ℕ → Option Text
  included_site payload =
      if is_canonical (canonicalize_json lib.json_text lib.from_slice payload) payload
      then parsed_site (lib.from_slice payload)
      else none

  abbrev pub payload_finding : Option Text → Finding
  payload_finding none = statement_failed "canonical_json_site_context_required"
  payload_finding (some site) = statement_passed "included_json_site_context_not_pser_validation"

  module _ (bytes : List ℕ) (inputs : StatementInputs) (policy : TransparentStatementPolicy) where
    -- One round of the loop over the receipts.
    unfoldable pub receipt_outcome :
        Option Claims → Option Text → ℕ → List ℕ → StatementReceiptOutcome
    receipt_outcome claims site index encoded =
        let result =
          verify_scitt_receipt lib.verification encoded bytes inputs.services policy.receipt in
        record {
          index = index;
          encoded_receipt = encoded;
          verified = result;
          receipt_policy =
              if not (is_passed result.envelope.selected_policy.status)
              then result.envelope.selected_policy
              else result.selected_policy;
          receipt_subject =
              subject_finding inputs.subject claims result.envelope.unauthenticated_claims site;
        }

    unfoldable pub receipt_outcomes :
        Option Claims → Option Text → ℕ → List (List ℕ) → List StatementReceiptOutcome
    receipt_outcomes claims site index [] = []
    receipt_outcomes claims site index (encoded ∷ rest) =
        receipt_outcome claims site index encoded ∷ receipt_outcomes claims site (suc index) rest

    -- The report before the first check.
    unfoldable pub initial_statement : StatementReport
    initial_statement = record {
      outer =
          inspect_transparent_statement lib.verification.receipts.cbor lib.verification.uri bytes
            policy;
      candidate_entry = none;
      candidate_derivation = statement_skipped;
      digest = (
        statement_unset "expected_digest_absent",
        statement_unset "expected_digest_origin_absent",
      );
      issuer = record {
        issuer_signature = statement_skipped;
        actual_issuer_key = none;
        issuer_key_association = statement_unset "issuer_key_absent";
        issuer_identity_trust = statement_unset "issuer_trust_absent";
      };
      payload_context = statement_skipped;
      application_profile = statement_unset "application_policy_absent";
      included_site_id = none;
      receipts = [];
      acceptable_receipt_indices = [];
      registration_evidence = statement_skipped;
      subject_policy = statement_unset "subject_convention_absent";
      application_policy = statement_unset "application_policy_absent";
      hardware_appraisal = statement_finding Status.not_evaluated "hardware_not_implemented";
      overall_profile = statement_unset "full_pser_conformance_not_established";
    }

    -- The application policy, if there is one.
    unfoldable pub with_application : Option SignedJsonSite → StatementReport → StatementReport
    with_application none r = r
    with_application (some a) r =
        let profiled : StatementReport = record r {
          application_profile = profile_finding r.outer.protected_content_type;
        } in
        record profiled { application_policy = application_finding a profiled }

    -- From the payload on, the digest and the issuer checked.
    unfoldable pub with_receipts : List ℕ → StatementReport → StatementReport
    with_receipts payload r =
        let site = included_site payload in
        let outcomes = receipt_outcomes r.outer.claims site 0 r.outer.receipts in
        with_application inputs.application (record r {
          payload_context = payload_finding site;
          included_site_id = site;
          receipts = outcomes;
          acceptable_receipt_indices = acceptable_indices outcomes;
          registration_evidence =
              if is_empty (acceptable_indices outcomes)
              then statement_unset "no_acceptable_receipt"
              else statement_passed "at_least_one_acceptable_receipt_caller_trust";
          subject_policy =
              if is_no_subject inputs.subject then r.subject_policy else subject_evidence outcomes;
        })

    abbrev pub coordinated :
        Option (Finding × Finding)
        → Option IssuerFindings
        → Option (List ℕ)
        → StatementReport
        → Option StatementReport
    coordinated (some digest) (some issuer) (some payload) r =
        some (with_receipts payload (record r { digest = digest; issuer = issuer }))
    coordinated _ _ _ r = none

    -- From the candidate on.
    unfoldable pub with_candidate : Result Error (List ℕ) → StatementReport → Option StatementReport
    with_candidate (err e) r =
        some (record r { candidate_derivation = statement_failed "candidate_derivation" })
    with_candidate (ok candidate) r =
        coordinated
          (check_digest lib.verification.receipts.sha256 inputs.expected_digest (some candidate)
            r.outer.payload_bytes r.digest)
          (check_issuer lib.verification r.outer inputs.issuer r.issuer) r.outer.payload_bytes
          (record r {
            candidate_entry = some candidate;
            candidate_derivation = statement_passed "exact_candidate_derived";
          })

    unfoldable pub verify_transparent_statement : Option StatementReport
    verify_transparent_statement =
        if not (is_passed initial_statement.outer.structure.status)
          || not (is_passed initial_statement.outer.selected_policy.status)
        then some initial_statement
        else with_candidate (derive_candidate_entry lib.verification.receipts.cbor bytes)
            initial_statement
