-- ===== src/Wire/Verification/Accepted.antt =====
-- The way from the report to a registration that passes: every gate before it was passed.
use pask_workspace.Prelude.{
  ℕ, ◌≡◌, refl, arith, not, if◌then◌else◌, Bool, true, false, List, [], ◌∷◌, some, length, All,
  subst, get_elem?, ltb, Result, ok, err,
}
use pask_workspace.Wire.Error.{Error}
use pask_workspace.Wire.Receipt.{Receipt}
use pask_workspace.Wire.Merkle.{leaf_hash, reconstruct_root}
use pask_workspace.Wire.Entry.{derive_candidate_entry}
use pask_workspace.Wire.Receipt.Decode.{from_cose_sign1}
use pask_workspace.Wire.Verification.{
  TsTrustContext, ReceiptVerificationPolicy, Report, VerificationLibraries, limits_valid, failed,
  passed,
}
use pask_workspace.Wire.Verification.Context.{bounded_context}
use pask_workspace.Wire.Verification.Keys.{Configured}
use pask_workspace.Wire.Verification.Proofs.{Checked, check_proofs, all_findings, is_passed}
use pask_workspace.Wire.Verification.Run.{
  inspected, or_empty, inclusions, agree, set_table, too_many_attempts, refuse_policy,
  refuse_candidate, is_done, preflight, after_proofs, set_keys, run_proofs, after_keys, run_receipt,
  run_candidate, run, initial_report, verify_scitt_receipt,
}
use pask_workspace.Wire.Verification.Rows.{IsIncluded, check_proofs-IsIncluded}
use pask_workspace.Wire.Verification.Kept.{kept-conclude}
use pask_workspace.Wire.Inspection.Report.{Envelope}
use pask_workspace.Wire.Verification.Signed.{IsSigned, conclude-ok}
use pask_workspace.Wire.Verification.Trust.{is_registrable}

-- A gate that a registration that passes has passed.
gate :
    (P : Report → Type 0) (test : Bool) (x y : Report)
    → is_registrable x ≡ false
    → (is_registrable y ≡ true → P y)
    → is_registrable (if test then x else y) ≡ true
    → (test ≡ false) × P (if test then x else y)
gate P true x y refused k h = absurd (ground arith)
gate P false x y refused k h = (refl, k h)

module _ (lib : VerificationLibraries) where
  -- What the report `s` says of the proofs of a receipt, in an envelope and a context.
  pub record IsProven (receipt : Receipt) (leaf : List ℕ) (e : Envelope) (c : TsTrustContext)
      (s : Report) : Type 0 where
    pub signed : IsSigned s.proofs s.candidate_keys e c
    pub proven :
        All
          (λ proof.
            IsIncluded lib
              (or_empty e.protected_bytes)
              receipt.payload
              (lib.receipts.from_slice (or_empty e.signature_bytes))
              signed.signer.public_key
              (reconstruct_root lib.receipts.sha256 proof leaf))
          receipt.inclusion_proofs

  abbrev leaf_of : Report → List ℕ
  leaf_of r = leaf_hash lib.receipts.sha256 (or_empty r.candidate_entry)

  abbrev Signed : Receipt → Report → Report → Type 0
  Signed receipt r s = IsProven receipt (leaf_of r) r.envelope r.trust_context s

  abbrev checked : Receipt → Report → Checked
  checked receipt r =
      check_proofs lib (or_empty r.envelope.protected_bytes) (leaf_of r) receipt.payload
        (lib.receipts.from_slice (or_empty r.envelope.signature_bytes)) r.candidate_keys 0
        receipt.inclusion_proofs (record { proofs = []; signature_attempts = 0 })

  after_proofs-ok :
      (receipt : Receipt) (t : Checked) (r : Report)
      → checked receipt r ≡ t
      → is_registrable r ≡ false
      → is_registrable (after_proofs t r) ≡ true
      → Signed receipt r (after_proofs t r)
  unfolding after_proofs
  after_proofs-ok receipt (Checked.unencoded t) r e unset h = absurd (ground arith)
  after_proofs-ok receipt (Checked.all_proofs t) r e unset h =
      let signed = conclude-ok (set_table t r) unset h in
      let same = kept-conclude (set_table t r) in
      let (proven, start, begun) =
        check_proofs-IsIncluded lib (or_empty r.envelope.protected_bytes) (leaf_of r)
          receipt.payload (lib.receipts.from_slice (or_empty r.envelope.signature_bytes))
          r.candidate_keys signed.index signed.signer
          (subst (λ parts. get_elem? parts.1 signed.index ≡ some signed.signer) same signed.found) 0
          receipt.inclusion_proofs (record { proofs = []; signature_attempts = 0 }) t e
          (subst (λ parts. all_findings is_passed (inclusions parts.0) ≡ true) same
            signed.all_included)
          (subst (λ parts. agree (signed.index ∷ []) parts.0 ≡ true) same signed.same) in
      record { signed = signed; proven = proven }

  run_proofs-ok :
      (receipt : Receipt) (r : Report)
      → is_registrable r ≡ false
      → is_registrable (run_proofs lib receipt r) ≡ true
      → Signed receipt r (run_proofs lib receipt r)
  unfolding run_proofs
  run_proofs-ok receipt r unset h =
      (gate (Signed receipt r)
        (too_many_attempts (length r.candidate_keys) (length receipt.inclusion_proofs)
          r.policy.limits.max_signature_attempts)
        (refuse_policy (failed "signature_attempt_limit") r) (after_proofs (checked receipt r) r)
        unset (after_proofs-ok receipt (checked receipt r) r refl unset) h).1

  after_keys-ok :
      (receipt : Receipt) (t : Configured) (r : Report)
      → is_registrable r ≡ false
      → is_registrable (after_keys lib receipt t r) ≡ true
      → Signed receipt r (after_keys lib receipt t r)
  unfolding after_keys
  after_keys-ok receipt (Configured.too_many_keys t) r unset h = absurd (ground arith)
  after_keys-ok receipt (Configured.all_keys t) r unset h =
      run_proofs-ok receipt (set_keys lib t r) unset h

  -- The receipt was decoded, and what follows.
  abbrev Decoded : List ℕ → Report → Report → Type 0
  Decoded entry r s =
      (receipt : Receipt) × (from_cose_sign1 lib.receipts.cbor r.envelope.encoded_receipt
        ≡ ok receipt)
      × IsProven receipt (leaf_hash lib.receipts.sha256 entry) r.envelope r.trust_context s

  run_receipt-ok :
      (d : Result Error Receipt) (r : Report)
      → is_registrable r ≡ false
      → is_registrable (run_receipt lib d r) ≡ true
      → (receipt : Receipt) × (d ≡ ok receipt) × Signed receipt r (run_receipt lib d r)
  unfolding run_receipt
  run_receipt-ok (err e) r unset h = absurd (ground arith)
  run_receipt-ok (ok receipt) r unset h = (receipt, refl, after_keys-ok receipt _ r unset h)

  run_candidate-ok :
      (d : Result Error (List ℕ)) (r : Report)
      → is_registrable r ≡ false
      → is_registrable (run_candidate lib d r) ≡ true
      → (candidate : List ℕ) × (d ≡ ok candidate)
        × (bounded_context r.trust_context r.policy.limits ≡ true)
        × Decoded candidate r (run_candidate lib d r)
  unfolding run_candidate
  run_candidate-ok (err e) r unset h = absurd (ground arith)
  run_candidate-ok (ok candidate) r unset h =
      let derived : Report = record r {
        candidate_derivation = passed "exact_statement_candidate_derived_not_outer_validation";
        candidate_entry = some candidate;
      } in
      let decoded = from_cose_sign1 lib.receipts.cbor r.envelope.encoded_receipt in
      let (bounded, rest) =
        gate (Decoded candidate r) (not (bounded_context r.trust_context r.policy.limits))
          (refuse_policy (failed "trust_context_limit") derived) (run_receipt lib decoded derived)
          unset (run_receipt-ok decoded derived unset) h in
      (candidate, refl, ground arith, rest)

  -- The gates of a run that registers.
  pub record IsRegistered (r s : Report) : Type 0 where
    pub inspection : inspected r.envelope ≡ true
    pub limits : limits_valid r.policy.limits ≡ true
    pub entry : List ℕ
    pub derived : derive_candidate_entry lib.receipts.cbor r.statement_bytes ≡ ok entry
    pub context : bounded_context r.trust_context r.policy.limits ≡ true
    pub receipt : Receipt
    pub decoded : from_cose_sign1 lib.receipts.cbor r.envelope.encoded_receipt ≡ ok receipt
    pub proven : IsProven receipt (leaf_hash lib.receipts.sha256 entry) r.envelope r.trust_context s

  run-ok :
      (r : Report)
      → is_registrable r ≡ false
      → is_registrable (run lib r) ≡ true
      → IsRegistered r (run lib r)
  unfolding run
  run-ok r unset h =
      let derived = derive_candidate_entry lib.receipts.cbor r.statement_bytes in
      let end = run_candidate lib derived r in
      let scanned = not (is_done (preflight lib r.statement_bytes r.policy.limits)) in
      let unscanned = refuse_candidate (failed "statement_cbor_preflight") r in
      let long = ltb r.policy.limits.max_statement_bytes (length r.statement_bytes) in
      let too_long = refuse_candidate (failed "statement_byte_limit") r in
      let invalid = refuse_policy (failed "invalid_phase2_limits") r in
      let Rest : Report → Type 0 = λ s.
        (candidate : List ℕ) × (derived ≡ ok candidate)
        × (bounded_context r.trust_context r.policy.limits ≡ true)
        × Decoded candidate r s in
      let (i, (l, (n, (c, (candidate, made, context, (receipt, decoded, proven)))))) =
        gate
          (λ s.
            (not (limits_valid r.policy.limits) ≡ false)
            × ((long ≡ false) × ((scanned ≡ false) × Rest s)))
          (not (inspected r.envelope)) r
          (if not (limits_valid r.policy.limits)
            then invalid
            else if long
            then too_long
            else if scanned
            then unscanned
            else end)
          unset
          (gate (λ s. (long ≡ false) × ((scanned ≡ false) × Rest s))
            (not (limits_valid r.policy.limits)) invalid
            (if long then too_long else if scanned then unscanned else end) unset
            (gate (λ s. (scanned ≡ false) × Rest s) long too_long
              (if scanned then unscanned else end) unset
              (gate Rest scanned unscanned end unset (run_candidate-ok derived r unset))))
          h in
      record {
        inspection = ground arith;
        limits = ground arith;
        entry = candidate;
        derived = made;
        context = context;
        receipt = receipt;
        decoded = decoded;
        proven = proven;
      }

  -- A registration passes only if the inspection passed in its four dimensions, the limits are
  -- valid, the statement gives a candidate, the context is within its limits, the receipt decodes,
  -- every proof of the receipt reconstructs from the leaf hash of that candidate a root that is the
  -- attached payload if there is one and that one and the same candidate key signs, and the context
  -- comes from the outside, binds that key to the claimed service by an authenticated association
  -- whose window is current, nowhere distrusts the key, and accepts the service.
  pub verify_scitt_receipt-registrable :
      (receipt_bytes statement_bytes : List ℕ) (c : TsTrustContext)
      (policy : ReceiptVerificationPolicy)
      → is_registrable (verify_scitt_receipt lib receipt_bytes statement_bytes c policy) ≡ true
      → IsRegistered
          (initial_report lib receipt_bytes statement_bytes c policy)
          (verify_scitt_receipt lib receipt_bytes statement_bytes c policy)
  unfolding verify_scitt_receipt initial_report
  verify_scitt_receipt-registrable receipt_bytes statement_bytes c policy h = run-ok _ refl h
