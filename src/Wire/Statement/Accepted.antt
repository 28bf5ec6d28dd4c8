-- ===== src/Wire/Statement/Accepted.antt =====
-- A statement whose application policy passes.
use pask_workspace.Prelude.{
  ℕ, ◌≡◌, refl, sym, subst, arith, inl, inr, ◌&&◌, ◌||◌, not, true, false, Bool-cases, All, List,
  Option, none, some, Text, Result, ok, err,
}
use pask_workspace.Wire.Error.{Error}
use pask_workspace.Wire.Entry.{derive_candidate_entry}
use pask_workspace.Wire.Inspection.{Finding}
use pask_workspace.Wire.Verification.Proofs.{is_passed}
use pask_workspace.Wire.Statement.{TransparentStatementPolicy, statement_passed}
use pask_workspace.Wire.Statement.Issuer.{IssuerFindings, check_digest, check_issuer}
use pask_workspace.Wire.Statement.Trusted.{is_trusted, outcome, check_issuer-trusted}
use pask_workspace.Wire.Statement.Gates.{Gates, application_finding-Gates}
use pask_workspace.Wire.Statement.Verify.{
  SignedJsonSite, StatementInputs, StatementReport, StatementLibraries, is_acceptable, any_receipt,
  profile_finding, is_refused, included_site, payload_finding, receipt_outcomes, initial_statement,
  with_application, with_receipts, coordinated, with_candidate, verify_transparent_statement,
}
use pask_workspace.Wire.Statement.Approved.{
  Some, passes, inspected_outer, IsRegistering, IsSubjectOf, IsApproved,
}
use pask_workspace.Wire.Statement.Evidence.{
  profile_finding-passed, subject_evidence-passed, acceptable_indices-any, acceptable-IsRegistering,
  any-Some, none-All, included_site-some, check_digest-IsExpected, some_acceptable, from_evidence,
  not_refused, both_passed,
}

module _ (lib : StatementLibraries) (bytes : List ℕ) (inputs : StatementInputs)
    (policy : TransparentStatementPolicy) where
  -- The application policy of a report that has none yet.
  with_application-passed :
      (o : Option SignedJsonSite) (r : StatementReport)
      → is_passed r.application_policy.status ≡ false
      → is_passed (with_application lib bytes inputs policy o r).application_policy.status ≡ true
      → (a : SignedJsonSite) × (o ≡ some a)
        × Gates a
            (record r { application_profile = profile_finding r.outer.protected_content_type })
  unfolding with_application
  with_application-passed none r unset h = cc
  with_application-passed (some a) r unset h = (a, refl, application_finding-Gates a _ h)

  payload_finding-passed :
      (site : Option Text)
      → is_passed (payload_finding lib site).status ≡ true
      → (s : Text) × (site ≡ some s)
  payload_finding-passed none h = cc
  payload_finding-passed (some s) h = (s, refl)

  module _ (candidate payload : List ℕ) (r : StatementReport) (digests : Finding × Finding)
      (findings : IssuerFindings) where
    -- From the payload on.
    with_receipts-IsApproved :
        derive_candidate_entry lib.verification.receipts.cbor bytes ≡ ok candidate
        → r.outer.payload_bytes ≡ some payload
        → is_passed digests.0.status ≡ false
        → check_digest lib.verification.receipts.sha256 inputs.expected_digest
            (some candidate)
            (some payload)
            digests
          ≡ some r.digest
        → is_trusted findings ≡ false
        → check_issuer lib.verification r.outer inputs.issuer findings ≡ some r.issuer
        → is_passed r.application_policy.status ≡ false
        → is_passed r.subject_policy.status ≡ false
        → is_passed (with_receipts lib bytes inputs policy payload r).application_policy.status
          ≡ true
        → IsApproved lib bytes inputs policy r.outer
    unfolding with_receipts
    with_receipts-IsApproved derived present fresh digest unset issuer no_policy no_subject h =
        let (a, asked, gates) = with_application-passed inputs.application _ no_policy h in
        let (site, sited) = payload_finding-passed (included_site lib payload) gates.context in
        let (canonical, parsed) = included_site-some lib bytes inputs policy payload site sited in
        let (key, keyed, signed) =
          check_issuer-trusted lib.verification r.outer inputs.issuer findings unset
            (subst (λ (o : Option IssuerFindings). outcome o ≡ true) (sym issuer) gates.trust) in
        let claims = r.outer.claims in
        let context = included_site lib payload in
        let outcomes = receipt_outcomes lib bytes inputs policy claims context 0 r.outer.receipts in
        let any : any_receipt is_acceptable outcomes ≡ true =
          acceptable_indices-any outcomes
            (some_acceptable lib bytes inputs policy outcomes gates.evidence) in
        record {
          application = a;
          asked = asked;
          claims = gates.claims;
          support = gates.support;
          key = key;
          keyed = keyed;
          signed = signed;
          profile = profile_finding-passed r.outer.protected_content_type gates.profile;
          candidate = candidate;
          derived = derived;
          payload = payload;
          present = present;
          canonical = canonical;
          site = site;
          sited = parsed;
          registered =
              any-Some lib bytes inputs policy claims context is_acceptable
                (IsRegistering lib bytes inputs policy)
                (acceptable-IsRegistering lib bytes inputs policy claims context) 0 r.outer.receipts
                any;
          every = λ all_of_them.
              subst
                (λ (s : Option Text).
                  All
                    (λ encoded.
                      IsRegistering lib bytes inputs policy encoded
                      × (a.require_subject ≡ true
                          → IsSubjectOf lib bytes inputs policy claims s encoded))
                    r.outer.receipts)
                sited
                (none-All lib bytes inputs policy claims context (is_refused a.require_subject) _
                  (not_refused lib bytes inputs policy claims context a.require_subject) 0
                  r.outer.receipts (gates.every all_of_them));
          subject = λ wanted.
              subst
                (λ (s : Option Text).
                  Some
                    (λ encoded.
                      IsRegistering lib bytes inputs policy encoded
                      × IsSubjectOf lib bytes inputs policy claims s encoded)
                    r.outer.receipts)
                sited
                (any-Some lib bytes inputs policy claims context
                  (λ x. is_acceptable x && is_passed x.receipt_subject.status) _
                  (both_passed lib bytes inputs policy claims context) 0 r.outer.receipts
                  (subject_evidence-passed outcomes (
                    from_evidence lib bytes inputs policy outcomes r.subject_policy no_subject
                      (gates.subject wanted))));
          digest = λ wanted.
              let (equal, origin) = gates.digest wanted in
              check_digest-IsExpected lib bytes inputs policy candidate payload digests r.digest
                fresh digest equal origin;
        }

  coordinated-IsApproved :
      (candidate : List ℕ) (digests : Finding × Finding) (findings : IssuerFindings)
      (r : StatementReport) (d : Option (Finding × Finding)) (i : Option IssuerFindings)
      (p : Option (List ℕ))
      → derive_candidate_entry lib.verification.receipts.cbor bytes ≡ ok candidate
      → r.outer.payload_bytes ≡ p
      → is_passed digests.0.status ≡ false
      → check_digest lib.verification.receipts.sha256 inputs.expected_digest
          (some candidate)
          p
          digests
        ≡ d
      → is_trusted findings ≡ false
      → check_issuer lib.verification r.outer inputs.issuer findings ≡ i
      → is_passed r.application_policy.status ≡ false
      → is_passed r.subject_policy.status ≡ false
      → passes (coordinated lib bytes inputs policy d i p r) ≡ true
      → IsApproved lib bytes inputs policy r.outer
  coordinated-IsApproved candidate digests findings r none i p a b c e f g j k h = cc
  coordinated-IsApproved candidate digests findings r (some d) none p a b c e f g j k h = cc
  coordinated-IsApproved candidate digests findings r (some d) (some i) none a b c e f g j k h = cc
  coordinated-IsApproved candidate digests findings r (some d) (some i) (some p) a b c e f g j k h =
      with_receipts-IsApproved candidate p (record r { digest = d; issuer = i }) digests findings a
        b c e f g j k h

  with_candidate-IsApproved :
      (c : Result Error (List ℕ)) (r : StatementReport)
      → derive_candidate_entry lib.verification.receipts.cbor bytes ≡ c
      → is_passed r.digest.0.status ≡ false
      → is_trusted r.issuer ≡ false
      → is_passed r.application_policy.status ≡ false
      → is_passed r.subject_policy.status ≡ false
      → passes (with_candidate lib bytes inputs policy c r) ≡ true
      → IsApproved lib bytes inputs policy r.outer
  unfolding with_candidate
  with_candidate-IsApproved (err e) r derived digest issuer no_policy no_subject h = cc
  with_candidate-IsApproved (ok candidate) r derived digest issuer no_policy no_subject h =
      coordinated-IsApproved candidate r.digest r.issuer
        (record r {
          candidate_entry = some candidate;
          candidate_derivation = statement_passed "exact_candidate_derived";
        })
        _ _ r.outer.payload_bytes derived refl digest refl issuer refl no_policy no_subject h

  -- Where the application policy of a statement passes, an application policy was asked for; the outer
  -- structure, its local policy, its claims and its algorithm passed; an issuer key is given and signed
  -- the statement, bound to the claimed issuer; the protected content type is that of the profile; the
  -- candidate entry is derived; the payload is its own canonical JSON and names a site; some attached
  -- receipt is registered, with all that this rests on. Where all receipts are required, every attached
  -- receipt is registered, and is bound to the subject if a subject is required; where a subject is
  -- required, some registered receipt is bound to it: its claims, the statement's and the site are equal
  -- or in an authenticated mapping, as the subject policy asks. Where an authenticated digest is required,
  -- the expected digest is the hash of the candidate or the payload, from an authenticated source that
  -- is not local.
  pub verify_transparent_statement-IsApproved :
      passes (verify_transparent_statement lib bytes inputs policy) ≡ true
      → (is_passed (inspected_outer lib bytes inputs policy).structure.status ≡ true)
        × (is_passed (inspected_outer lib bytes inputs policy).selected_policy.status ≡ true)
        × IsApproved lib bytes inputs policy (inspected_outer lib bytes inputs policy)
  unfolding verify_transparent_statement initial_statement
  verify_transparent_statement-IsApproved h =
      elim (Bool-cases (
        not (is_passed (inspected_outer lib bytes inputs policy).structure.status)
        || not (is_passed (inspected_outer lib bytes inputs policy).selected_policy.status))) [
          | inl e ↦ absurd (ground (arith, e))
          | inr e ↦ (
            ground (arith, e),
            ground (arith, e),
            with_candidate-IsApproved _ (initial_statement lib bytes inputs policy) refl refl refl
                refl refl (ground (arith, e)),
          )
        ]
