-- ===== src/Wire/Statement/Approved.antt =====
-- What the inputs and the bytes of a statement are where its application policy passes.
use pask_workspace.Prelude.{
  ℕ, ◌≡◌, ◌⊎◌, true, false, Bool, All, List, [], ◌∷◌, Option, none, some, Text, ascii, ok,
}
use pask_workspace.Wire.Json.{canonicalize_json}
use pask_workspace.Wire.Entry.{derive_candidate_entry}
use pask_workspace.Wire.Inspection.Claims.{Claims}
use pask_workspace.Wire.Verification.{Report}
use pask_workspace.Wire.Verification.Proofs.{is_passed}
use pask_workspace.Wire.Verification.Run.{verify_scitt_receipt, initial_report}
use pask_workspace.Wire.Verification.Accepted.{IsRegistered}
use pask_workspace.Wire.Statement.{TransparentStatementPolicy, OuterStatementReport}
use pask_workspace.Wire.Statement.Outer.{inspect_transparent_statement}
use pask_workspace.Wire.Statement.Issuer.{
  IssuerKeyInput, ExpectedDigest, authenticated_provenance, is_local, digest_input,
}
use pask_workspace.Wire.Statement.Trusted.{IsSignedBy}
use pask_workspace.Wire.Statement.Mapped.{IsBoundSubject}
use pask_workspace.Wire.Statement.Verify.{
  SignedJsonSite, StatementInputs, StatementReport, StatementLibraries, parsed_site,
}

-- Some member of a list.
abbrev pub Some : (List ℕ → Type 0) → List (List ℕ) → Type 0
Some P [] = ⊥
Some P (x ∷ xs) = P x ⊎ Some P xs

abbrev pub passes : Option StatementReport → Bool
passes none = false
passes (some r) = is_passed r.application_policy.status

abbrev pub json_site_profile : Text
json_site_profile = ascii "application/json; profile=pask71-software-site/1"

module _ (lib : StatementLibraries) (bytes : List ℕ) (inputs : StatementInputs)
    (policy : TransparentStatementPolicy) where
  abbrev pub inspected_outer : OuterStatementReport
  inspected_outer =
      inspect_transparent_statement lib.verification.receipts.cbor lib.verification.uri bytes policy

  abbrev pub verified : List ℕ → Report
  verified encoded =
      verify_scitt_receipt lib.verification encoded bytes inputs.services policy.receipt

  -- A receipt of the statement that is acceptable for registration, and what this rests on.
  abbrev pub IsRegistering : List ℕ → Type 0
  IsRegistering encoded =
      IsRegistered lib.verification
        (initial_report lib.verification encoded bytes inputs.services policy.receipt)
        (verified encoded)

  -- The claims of a receipt correspond to those of the statement and to the site, as the subject policy
  -- asks.
  abbrev pub IsSubjectOf : Option Claims → Option Text → List ℕ → Type 0
  IsSubjectOf claims site encoded =
      IsBoundSubject inputs.subject claims (verified encoded).envelope.unauthenticated_claims site

  -- The digest that the caller expects is that of the candidate or of the payload, and its source is
  -- authenticated and not local.
  abbrev pub IsExpected : List ℕ → List ℕ → Type 0
  IsExpected candidate payload =
      (d : ExpectedDigest) × (target : List ℕ) × (inputs.expected_digest ≡ some d)
      × (digest_input d.target (some candidate) (some payload) ≡ some target)
      × (lib.verification.receipts.sha256 target ≡ d.expected)
      × (authenticated_provenance d.digest_provenance ≡ true)
      × (is_local d.digest_source ≡ false)

  -- What the outer report and the inputs are where the application policy passes.
  pub record IsApproved (outer : OuterStatementReport) : Type 0 where
    pub application : SignedJsonSite
    pub asked : inputs.application ≡ some application
    pub claims : is_passed outer.required_claims.status ≡ true
    pub support : is_passed outer.support.status ≡ true
    pub key : IssuerKeyInput
    pub keyed : inputs.issuer ≡ some key
    pub signed : IsSignedBy lib.verification outer key
    pub profile : outer.protected_content_type ≡ some json_site_profile
    pub candidate : List ℕ
    pub derived : derive_candidate_entry lib.verification.receipts.cbor bytes ≡ ok candidate
    pub payload : List ℕ
    pub present : outer.payload_bytes ≡ some payload
    pub canonical : canonicalize_json lib.json_text lib.from_slice payload ≡ ok payload
    pub site : Text
    pub sited : parsed_site lib (lib.from_slice payload) ≡ some site
    pub registered : Some IsRegistering outer.receipts
    pub every :
        application.require_all_receipts ≡ true
        → All
            (λ encoded.
              IsRegistering encoded
              × (application.require_subject ≡ true → IsSubjectOf outer.claims (some site) encoded))
            outer.receipts
    pub subject :
        application.require_subject ≡ true
        → Some
            (λ encoded. IsRegistering encoded × IsSubjectOf outer.claims (some site) encoded)
            outer.receipts
    pub digest : application.require_authenticated_digest ≡ true → IsExpected candidate payload
