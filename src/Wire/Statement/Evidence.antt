-- ===== src/Wire/Statement/Evidence.antt =====
-- What the findings on the receipts, the payload and the digest rest on.
use pask_workspace.Prelude.{
  ℕ, suc, ◌≡◌, ap, ◌∙◌, arith, inl, inr, ◌&&◌, not, true, false, Bool, Bool-cases, Option-cases,
  Result-cases, All, List, [], ◌∷◌, Option, none, some, is_empty, Text, if◌then◌else◌, bytes_eq,
  bytes_eq→eq, ok,
}
use pask_workspace.Wire.Json.{canonicalize_json}
use pask_workspace.Wire.Inspection.{Finding}
use pask_workspace.Wire.Inspection.Claims.{Claims}
use pask_workspace.Wire.Verification.Proofs.{is_passed}
use pask_workspace.Wire.Verification.Accepted.{verify_scitt_receipt-registrable}
use pask_workspace.Wire.Statement.{TransparentStatementPolicy, statement_passed}
use pask_workspace.Wire.Statement.Issuer.{
  statement_unset, authenticated_provenance, is_local, digest_input, check_digest,
}
use pask_workspace.Wire.Statement.Subject.{is_no_subject}
use pask_workspace.Wire.Statement.Verify.{
  StatementInputs, StatementReceiptOutcome, StatementLibraries, is_acceptable, acceptable_indices,
  any_receipt, subject_evidence, profile_finding, is_refused, parsed_site, included_site,
  receipt_outcome, receipt_outcomes,
}
use pask_workspace.Wire.Statement.Mapped.{subject_finding-IsBoundSubject}
use pask_workspace.Wire.Statement.Approved.{
  Some, json_site_profile, IsRegistering, IsSubjectOf, IsExpected,
}

pub profile_finding-passed :
    (t : Option Text) → is_passed (profile_finding t).status ≡ true → t ≡ some json_site_profile
profile_finding-passed none h = cc
profile_finding-passed (some t) h = elim (Bool-cases (bytes_eq t json_site_profile)) [
  | inl e ↦ ap some (bytes_eq→eq t json_site_profile e)
  | inr e ↦ absurd (ground (arith, e))
]

pub subject_evidence-passed :
    (rs : List StatementReceiptOutcome)
    → is_passed (subject_evidence rs).status ≡ true
    → any_receipt (λ x. is_acceptable x && is_passed x.receipt_subject.status) rs ≡ true
unfolding subject_evidence
subject_evidence-passed rs h =
    elim (Bool-cases
      (any_receipt (λ x. is_acceptable x && is_passed x.receipt_subject.status) rs)) [
        | inl t ↦ t
        | inr f ↦ absurd (ground (arith, f))
      ]

pub acceptable_indices-any :
    (rs : List StatementReceiptOutcome)
    → is_empty (acceptable_indices rs) ≡ false
    → any_receipt is_acceptable rs ≡ true
unfolding acceptable_indices
acceptable_indices-any [] h = cc
acceptable_indices-any (x ∷ xs) h = elim (Bool-cases (is_acceptable x)) [
  | inl t ↦ ground (arith, t)
  | inr f ↦ ground (arith, f, acceptable_indices-any xs)
]

module _ (lib : StatementLibraries) (bytes : List ℕ) (inputs : StatementInputs)
    (policy : TransparentStatementPolicy) where
  pub acceptable-IsRegistering :
      (claims : Option Claims) (site : Option Text) (i : ℕ) (encoded : List ℕ)
      → is_acceptable (receipt_outcome lib bytes inputs policy claims site i encoded) ≡ true
      → IsRegistering lib bytes inputs policy encoded
  unfolding receipt_outcome
  acceptable-IsRegistering claims site i encoded h =
      verify_scitt_receipt-registrable lib.verification encoded bytes inputs.services policy.receipt
        h

  pub any-Some :
      (claims : Option Claims) (site : Option Text) (test : StatementReceiptOutcome → Bool)
      (P : List ℕ → Type 0)
      → ((i : ℕ) (encoded : List ℕ)
          → test (receipt_outcome lib bytes inputs policy claims site i encoded) ≡ true
          → P encoded)
      → (i : ℕ) (rs : List (List ℕ))
      → any_receipt test (receipt_outcomes lib bytes inputs policy claims site i rs) ≡ true
      → Some P rs
  unfolding receipt_outcomes
  any-Some claims site test P each i [] h = absurd (ground arith)
  any-Some claims site test P each i (r ∷ rs) h =
      elim (Bool-cases (test (receipt_outcome lib bytes inputs policy claims site i r))) [
        | inl t ↦ inl (each i r t)
        | inr f ↦ inr (any-Some claims site test P each (suc i) rs (ground (arith, f)))
      ]

  pub none-All :
      (claims : Option Claims) (site : Option Text) (test : StatementReceiptOutcome → Bool)
      (P : List ℕ → Type 0)
      → ((i : ℕ) (encoded : List ℕ)
          → test (receipt_outcome lib bytes inputs policy claims site i encoded) ≡ false
          → P encoded)
      → (i : ℕ) (rs : List (List ℕ))
      → any_receipt test (receipt_outcomes lib bytes inputs policy claims site i rs) ≡ false
      → All P rs
  unfolding receipt_outcomes
  none-All claims site test P each i [] h = tt
  none-All claims site test P each i (r ∷ rs) h =
      (each i r (ground arith), none-All claims site test P each (suc i) rs (ground arith))

  pub included_site-some :
      (payload : List ℕ) (site : Text)
      → included_site lib payload ≡ some site
      → (canonicalize_json lib.json_text lib.from_slice payload ≡ ok payload)
        × (parsed_site lib (lib.from_slice payload) ≡ some site)
  unfolding included_site
  included_site-some payload site h =
      elim (Result-cases (canonicalize_json lib.json_text lib.from_slice payload)) [
        | inr (x, e) ↦ absurd (ground (arith, e))
        | inl (canonical, e) ↦ elim (Bool-cases (bytes_eq canonical payload)) [
          | inr f ↦ absurd (ground (arith, e, f))
          | inl t ↦ (e ∙ ap ok (bytes_eq→eq canonical payload t), ground (arith, e, t))
        ]
      ]

  pub check_digest-IsExpected :
      (candidate payload : List ℕ) (unset d : Finding × Finding)
      → is_passed unset.0.status ≡ false
      → check_digest lib.verification.receipts.sha256 inputs.expected_digest
          (some candidate)
          (some payload)
          unset
        ≡ some d
      → is_passed d.0.status ≡ true
      → is_passed d.1.status ≡ true
      → IsExpected lib bytes inputs policy candidate payload
  unfolding check_digest
  check_digest-IsExpected candidate payload unset d fresh h equal origin =
      elim (Option-cases inputs.expected_digest) [
        | inl e ↦ absurd (ground (arith, e))
        | inr (x, e) ↦ elim (Option-cases (digest_input x.target (some candidate) (some payload))) [
          | inl n ↦ absurd (ground (arith, e, n))
          | inr (target, t) ↦
              elim (Bool-cases (bytes_eq (lib.verification.receipts.sha256 target) x.expected)) [
                | inr f ↦ absurd (ground (arith, e, t, f))
                | inl same ↦
                    elim (Bool-cases (
                      authenticated_provenance x.digest_provenance
                      && not (is_local x.digest_source))) [
                        | inr f ↦ absurd (ground (arith, e, t, same, f))
                        | inl both ↦ (
                          x,
                          target,
                          e,
                          t,
                          bytes_eq→eq _ _ same,
                          ground (arith, both),
                          ground (arith, both),
                        )
                      ]
              ]
        ]
      ]

  pub some_acceptable :
      (rs : List StatementReceiptOutcome)
      → is_passed
          (if is_empty (acceptable_indices rs)
            then statement_unset "no_acceptable_receipt"
            else statement_passed "at_least_one_acceptable_receipt_caller_trust").status
        ≡ true
      → is_empty (acceptable_indices rs) ≡ false
  some_acceptable rs h = elim (Bool-cases (is_empty (acceptable_indices rs))) [
    | inl e ↦ absurd (ground (arith, e))
    | inr e ↦ e
  ]

  pub from_evidence :
      (rs : List StatementReceiptOutcome) (before : Finding)
      → is_passed before.status ≡ false
      → is_passed (if is_no_subject inputs.subject then before else subject_evidence rs).status
        ≡ true
      → is_passed (subject_evidence rs).status ≡ true
  from_evidence rs before unset h = elim (Bool-cases (is_no_subject inputs.subject)) [
    | inl e ↦ absurd (ground (arith, e))
    | inr e ↦ ground (arith, e)
  ]

  pub not_refused :
      (claims : Option Claims) (site : Option Text) (require_subject : Bool) (i : ℕ)
      (encoded : List ℕ)
      → is_refused require_subject (receipt_outcome lib bytes inputs policy claims site i encoded)
        ≡ false
      → IsRegistering lib bytes inputs policy encoded
        × (require_subject ≡ true → IsSubjectOf lib bytes inputs policy claims site encoded)
  unfolding receipt_outcome
  not_refused claims site require_subject i encoded h = (
    acceptable-IsRegistering claims site i encoded (ground arith),
    λ wanted. subject_finding-IsBoundSubject inputs.subject claims _ site (ground (arith, wanted)),
  )

  pub both_passed :
      (claims : Option Claims) (site : Option Text) (i : ℕ) (encoded : List ℕ)
      → (is_acceptable (receipt_outcome lib bytes inputs policy claims site i encoded)
          && is_passed
              (receipt_outcome lib bytes inputs policy claims site i
                encoded).receipt_subject.status)
        ≡ true
      → IsRegistering lib bytes inputs policy encoded
        × IsSubjectOf lib bytes inputs policy claims site encoded
  unfolding receipt_outcome
  both_passed claims site i encoded h = (
    acceptable-IsRegistering claims site i encoded (ground arith),
    subject_finding-IsBoundSubject inputs.subject claims _ site (ground arith),
  )
