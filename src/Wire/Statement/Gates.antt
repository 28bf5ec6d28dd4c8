-- ===== src/Wire/Statement/Gates.antt =====
-- The tests that the last step of `verify_transparent_statement` puts to the report.
use pask_workspace.Prelude.{◌≡◌, arith, ◌&&◌, ◌||◌, not, true, false, Bool-cases, inl, inr}
use pask_workspace.Wire.Inspection.{Finding}
use pask_workspace.Wire.Verification.Proofs.{is_passed, is_failed, any_finding, all_findings}
use pask_workspace.Wire.Statement.Verify.{
  SignedJsonSite, StatementReport, any_receipt, is_refused, required_findings, digest_policy,
  application_finding,
}

digest_policy-passed : (d : Finding × Finding) → is_passed (digest_policy d).status ≡ false
unfolding digest_policy
digest_policy-passed (equality, origin) = elim (Bool-cases (is_failed equality.status)) [
  | inl t ↦ ground arith
  | inr f ↦ ground arith
]

-- All the tests of the last step hold where it passes.
pub application_finding-passed :
    (a : SignedJsonSite) (r : StatementReport)
    → is_passed (application_finding a r).status ≡ true
    → (all_findings is_passed (required_findings r) ≡ true)
      × ((a.require_all_receipts && any_receipt (is_refused a.require_subject) r.receipts) ≡ false)
      × ((a.require_subject && not (is_passed r.subject_policy.status)) ≡ false)
      × ((a.require_authenticated_digest
            && (not (is_passed r.digest.0.status) || not (is_passed r.digest.1.status)))
          ≡ false)
unfolding application_finding
application_finding-passed a r h =
    let ruled = digest_policy-passed r.digest in
    elim (Bool-cases (any_finding is_failed (required_findings r))) [
      | inl t ↦ absurd (ground arith)
      | inr f ↦ elim (Bool-cases (all_findings is_passed (required_findings r))) [
        | inr n ↦ absurd (ground arith)
        | inl required ↦
            elim (Bool-cases
              (a.require_all_receipts && any_receipt (is_refused a.require_subject) r.receipts)) [
                | inl t ↦ absurd (ground arith)
                | inr every ↦
                    elim (Bool-cases
                      (a.require_subject && not (is_passed r.subject_policy.status))) [
                        | inl t ↦ absurd (ground arith)
                        | inr subject ↦
                            elim (Bool-cases (
                              a.require_authenticated_digest
                              && (not (is_passed r.digest.0.status)
                                  || not (is_passed r.digest.1.status)))) [
                                    | inl t ↦ absurd (ground arith)
                                    | inr digest ↦ (required, every, subject, digest)
                                  ]
                      ]
              ]
      ]
    ]

-- The tests, each on its own.
pub record Gates (a : SignedJsonSite) (r : StatementReport) : Type 0 where
  pub claims : is_passed r.outer.required_claims.status ≡ true
  pub support : is_passed r.outer.support.status ≡ true
  pub context : is_passed r.payload_context.status ≡ true
  pub trust : is_passed r.issuer.issuer_identity_trust.status ≡ true
  pub evidence : is_passed r.registration_evidence.status ≡ true
  pub profile : is_passed r.application_profile.status ≡ true
  pub every :
      a.require_all_receipts ≡ true → any_receipt (is_refused a.require_subject) r.receipts ≡ false
  pub subject : a.require_subject ≡ true → is_passed r.subject_policy.status ≡ true
  pub digest :
      a.require_authenticated_digest ≡ true
      → (is_passed r.digest.0.status ≡ true) × (is_passed r.digest.1.status ≡ true)

pub application_finding-Gates :
    (a : SignedJsonSite) (r : StatementReport)
    → is_passed (application_finding a r).status ≡ true
    → Gates a r
application_finding-Gates a r h =
    let (required, every, subject, digest) = application_finding-passed a r h in
    record {
      claims = ground arith;
      support = ground arith;
      context = ground arith;
      trust = ground arith;
      evidence = ground arith;
      profile = ground arith;
      every = λ e. ground arith;
      subject = λ e. ground arith;
      digest = λ e. (ground arith, ground arith);
    }
