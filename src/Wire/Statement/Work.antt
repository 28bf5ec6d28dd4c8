-- ===== src/Wire/Statement/Work.antt =====
-- The signature attempts of a whole statement.
use native.Mathlib.Nat.{mul-le-mul_right}
use pask_workspace.Prelude.{
  ℕ, suc, ◌+◌, ◌*◌, ◌≤◌, ◌≡◌, refl, arith, ◌||◌, not, by_test, true, List, [], ◌∷◌, Option, none,
  some, Text, length, subst, sym, Result, ok, err,
}
use pask_workspace.Wire.Error.{Error}
use pask_workspace.Wire.Entry.{derive_candidate_entry}
use pask_workspace.Wire.Inspection.{Finding}
use pask_workspace.Wire.Inspection.Claims.{Claims}
use pask_workspace.Wire.Verification.Attempts.{verify_scitt_receipt-attempts}
use pask_workspace.Wire.Verification.Proofs.{is_passed}
use pask_workspace.Wire.Statement.{TransparentStatementPolicy, ReceiptContainerState}
use pask_workspace.Wire.Statement.Container.{receipts_fit, inspect_transparent_statement-IsOuter}
use pask_workspace.Wire.Statement.Issuer.{IssuerFindings}
use pask_workspace.Wire.Statement.Verify.{
  SignedJsonSite, StatementInputs, StatementReceiptOutcome, StatementReport, StatementLibraries,
  receipt_outcome, receipt_outcomes, included_site, initial_statement, with_application,
  with_receipts, coordinated, with_candidate, verify_transparent_statement,
}

-- The attempts over all receipts.
abbrev pub attempts_in : List StatementReceiptOutcome → ℕ
attempts_in [] = 0
attempts_in (x ∷ xs) = x.verified.signature_attempts + attempts_in xs

abbrev pub work : Option StatementReport → ℕ
work none = 0
work (some r) = attempts_in r.receipts

receipts_fit-length :
    (c : ReceiptContainerState) (receipts : List (List ℕ)) (n : ℕ)
    → receipts_fit c receipts n ≡ true
    → length receipts ≤ n
receipts_fit-length c [] n h = omega arith
receipts_fit-length ReceiptContainerState.attached (r ∷ rs) n h = ground arith
receipts_fit-length ReceiptContainerState.not_examined (r ∷ rs) n h = absurd (ground arith)
receipts_fit-length ReceiptContainerState.no_receipts (r ∷ rs) n h = absurd (ground arith)
receipts_fit-length ReceiptContainerState.malformed_receipts (r ∷ rs) n h = absurd (ground arith)

module _ (lib : StatementLibraries) (bytes : List ℕ) (inputs : StatementInputs)
    (policy : TransparentStatementPolicy) where
  attempts_in-receipt_outcomes :
      (claims : Option Claims) (site : Option Text) (index : ℕ) (rs : List (List ℕ))
      → attempts_in (receipt_outcomes lib bytes inputs policy claims site index rs)
        ≤ length rs * policy.receipt.limits.max_signature_attempts
  unfolding receipt_outcomes receipt_outcome
  attempts_in-receipt_outcomes claims site index [] = omega arith
  attempts_in-receipt_outcomes claims site index (encoded ∷ rest) =
      let one =
        verify_scitt_receipt-attempts lib.verification encoded bytes inputs.services
          policy.receipt in
      let others = attempts_in-receipt_outcomes claims site (suc index) rest in ground arith

  with_application-receipts :
      (a : Option SignedJsonSite) (r : StatementReport)
      → (with_application lib bytes inputs policy a r).receipts ≡ r.receipts
  unfolding with_application
  with_application-receipts none r = refl
  with_application-receipts (some a) r = refl

  with_receipts-work :
      (payload : List ℕ) (r : StatementReport)
      → attempts_in (with_receipts lib bytes inputs policy payload r).receipts
        ≤ length r.outer.receipts * policy.receipt.limits.max_signature_attempts
  unfolding with_receipts
  with_receipts-work payload r =
      subst
        (λ xs.
          attempts_in xs ≤ length r.outer.receipts * policy.receipt.limits.max_signature_attempts)
        (sym (with_application-receipts inputs.application _))
        (attempts_in-receipt_outcomes r.outer.claims (included_site lib payload) 0 r.outer.receipts)

  coordinated-work :
      (d : Option (Finding × Finding)) (i : Option IssuerFindings) (p : Option (List ℕ))
      (r : StatementReport)
      → work (coordinated lib bytes inputs policy d i p r)
        ≤ length r.outer.receipts * policy.receipt.limits.max_signature_attempts
  coordinated-work none i p r = omega arith
  coordinated-work (some d) none p r = omega arith
  coordinated-work (some d) (some i) none r = omega arith
  coordinated-work (some d) (some i) (some p) r =
      with_receipts-work p (record r { digest = d; issuer = i })

  with_candidate-work :
      (c : Result Error (List ℕ)) (r : StatementReport)
      → r.receipts ≡ []
      → work (with_candidate lib bytes inputs policy c r)
        ≤ length r.outer.receipts * policy.receipt.limits.max_signature_attempts
  unfolding with_candidate
  with_candidate-work (err e) r h =
      subst
        (λ xs.
          attempts_in xs ≤ length r.outer.receipts * policy.receipt.limits.max_signature_attempts)
        (sym h) (omega arith)
  with_candidate-work (ok candidate) r h = coordinated-work _ _ _ _

  -- The signature attempts over all receipts of a statement are no more than the policy's number of
  -- receipts times its attempts for each receipt, whatever the bytes and the inputs.
  pub verify_transparent_statement-attempts :
      work (verify_transparent_statement lib bytes inputs policy)
      ≤ policy.max_receipts * policy.receipt.limits.max_signature_attempts
  unfolding verify_transparent_statement initial_statement
  verify_transparent_statement-attempts =
      let n = policy.receipt.limits.max_signature_attempts in
      let start = initial_statement lib bytes inputs policy in
      let sound =
        inspect_transparent_statement-IsOuter lib.verification.receipts.cbor lib.verification.uri
          policy bytes in
      let room =
        receipts_fit-length start.outer.container start.outer.receipts policy.max_receipts
          sound.receipts in
      by_test (λ x. work x ≤ policy.max_receipts * n)
        (not (is_passed start.outer.structure.status)
          || not (is_passed start.outer.selected_policy.status))
        (some start)
        (with_candidate lib bytes inputs policy
          (derive_candidate_entry lib.verification.receipts.cbor bytes) start)
        (λ e. omega arith)
        (λ e.
          let spent =
            with_candidate-work (derive_candidate_entry lib.verification.receipts.cbor bytes) start
              refl in
          let grown = mul-le-mul_right n room in omega arith)
