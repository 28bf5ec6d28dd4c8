-- ===== src/Wire/Verification/Attempts.antt =====
-- The work of a verification is within its limits.
use pask_workspace.Prelude.{
  ℕ, suc, ◌+◌, ◌*◌, ◌≤◌, ◌≡◌, refl, arith, ltb, not, if◌then◌else◌, Bool, true, false, List, [],
  ◌∷◌, ◌++◌, Option, none, some, length, Result, ok, err, subst, sym,
}
use native.Mathlib.Nat.{mul_comm}
use pask_workspace.Wire.Error.{Error}
use pask_workspace.Wire.Merkle.{InclusionProof, reconstruct_root, leaf_hash}
use pask_workspace.Wire.Receipt.{Receipt, sig_structure}
use pask_workspace.Wire.Entry.{derive_candidate_entry}
use pask_workspace.Wire.Receipt.Decode.{from_cose_sign1}
use pask_workspace.Wire.Verification.{
  VerifyingKeyEvidence, ProofVerification, TsTrustContext, ReceiptVerificationPolicy, Report,
  VerificationLibraries, limits_valid, failed, passed,
}
use pask_workspace.Wire.Verification.Context.{bounded_context}
use pask_workspace.Wire.Verification.Keys.{Configured}
use pask_workspace.Wire.Verification.Proofs.{
  ProofTable, Checked, mismatched, fresh_proof, rooted, try_signature, signature_findings,
  attached_finding, verifying_keys, check_proof, push_proof, check_proofs,
}
use pask_workspace.Wire.Verification.Run.{
  or_empty, too_many_attempts, set_table, after_proofs, set_keys, run_proofs, after_keys,
  run_receipt, run_candidate, run, is_done, inspected, preflight, refuse_policy, refuse_candidate,
  initial_report, verify_scitt_receipt,
}
use pask_workspace.Wire.Verification.Kept.{kept-conclude}

abbrev attempts_of : Option (ProofVerification × ℕ) → ℕ
attempts_of none = 0
attempts_of (some (p, n)) = n

abbrev table_of : Checked → ProofTable
table_of (Checked.all_proofs t) = t
table_of (Checked.unencoded t) = t

attempts_of-if :
    (test : Bool) (x y : Option (ProofVerification × ℕ)) (n : ℕ)
    → attempts_of x ≤ n
    → attempts_of y ≤ n
    → attempts_of (if test then x else y) ≤ n
attempts_of-if true x y n h k = h
attempts_of-if false x y n h k = k

module _ (lib : VerificationLibraries) where
  module _ (protected_bytes leaf : List ℕ) (payload : Option (List ℕ))
      (signature : Option lib.receipts.Signature) (keys : List VerifyingKeyEvidence) where
    try_signature-attempts :
        (root : List ℕ) (p : ProofVerification) (sig : Option lib.receipts.Signature)
        → attempts_of (try_signature lib protected_bytes leaf payload signature keys root p sig)
          ≤ length keys
    unfolding try_signature
    try_signature-attempts root p none = omega arith
    try_signature-attempts root p (some sig) =
        elim (lib.receipts.cbor.into_writer (sig_structure protected_bytes root))
          as (λ o.
            attempts_of (elim o [
              | none ↦ none
              | some signed ↦
                  some
                    (signature_findings keys (verifying_keys lib signed sig 0 keys) p, length keys)
            ])
            ≤ length keys) [ none ↦ omega arith | some signed ↦ omega arith ]

    check_proof-attempts :
        (p : ProofVerification) (r : Result Error (List ℕ))
        → attempts_of (check_proof lib protected_bytes leaf payload signature keys p r)
          ≤ length keys
    unfolding check_proof
    check_proof-attempts p (err e) = omega arith
    check_proof-attempts p (ok root) =
        let q : ProofVerification = record (rooted root p) {
          attached_root_equality = attached_finding payload;
        } in
        let bad : ProofVerification = record (rooted root p) {
          attached_root_equality = failed "attached_root_mismatch";
          inclusion = failed "attached_root_mismatch";
        } in
        attempts_of-if (mismatched payload root) (some (bad, 0))
          (try_signature lib protected_bytes leaf payload signature keys root q signature)
          (length keys) (omega arith) (try_signature-attempts root q signature)

    push_proof-attempts :
        (n : ℕ) (o : Option (ProofVerification × ℕ)) (t : ProofTable) (next : ProofTable → Checked)
        → attempts_of o ≤ length keys
        → ((u : ProofTable)
            → (table_of (next u)).signature_attempts ≤ u.signature_attempts + n * length keys)
        → (table_of (
            push_proof lib protected_bytes leaf payload signature keys o t next)).signature_attempts
          ≤ t.signature_attempts + suc n * length keys
    push_proof-attempts n none t next h k = ground arith
    push_proof-attempts n (some (p, a)) t next h k =
        let rest = k (record {
          proofs = t.proofs ++ (p ∷ []);
          signature_attempts = t.signature_attempts + a;
        }) in
        ground arith

    check_proofs-attempts :
        (i : ℕ) (proofs : List InclusionProof) (t : ProofTable)
        → (table_of (
            check_proofs lib protected_bytes leaf payload signature keys i proofs
              t)).signature_attempts
          ≤ t.signature_attempts + length proofs * length keys
    unfolding check_proofs
    check_proofs-attempts i [] t = omega arith
    check_proofs-attempts i (proof ∷ rest) t =
        let root = reconstruct_root lib.receipts.sha256 proof leaf in
        push_proof-attempts (length rest)
          (check_proof lib protected_bytes leaf payload signature keys (fresh_proof i) root) t
          (check_proofs lib protected_bytes leaf payload signature keys (suc i) rest)
          (check_proof-attempts (fresh_proof i) root) (check_proofs-attempts (suc i) rest)

  -- A report whose attempts are within the limit.
  abbrev Within : ℕ → Report → Type 0
  Within n r = r.signature_attempts ≤ n

  Within-if :
      (n : ℕ) (test : Bool) (x y : Report)
      → Within n x
      → (test ≡ false → Within n y)
      → Within n (if test then x else y)
  Within-if n true x y h k = h
  Within-if n false x y h k = k refl

  after_proofs-Within :
      (n : ℕ) (t : Checked) (r : Report)
      → (table_of t).signature_attempts ≤ n
      → Within n (after_proofs t r)
  unfolding after_proofs
  after_proofs-Within n (Checked.unencoded t) r h = h
  after_proofs-Within n (Checked.all_proofs t) r h =
      subst (λ parts. parts.4 ≤ n) (sym (kept-conclude (set_table t r))) h

  run_proofs-Within :
      (receipt : Receipt) (r : Report)
      → r.signature_attempts ≡ 0
      → Within r.policy.limits.max_signature_attempts (run_proofs lib receipt r)
  unfolding run_proofs
  run_proofs-Within receipt r h =
      let n = r.policy.limits.max_signature_attempts in
      let leaf = leaf_hash lib.receipts.sha256 (or_empty r.candidate_entry) in
      let signature = lib.receipts.from_slice (or_empty r.envelope.signature_bytes) in
      let start : ProofTable = record { proofs = []; signature_attempts = 0 } in
      let bytes = or_empty r.envelope.protected_bytes in
      let t =
        check_proofs lib bytes leaf receipt.payload signature r.candidate_keys 0
          receipt.inclusion_proofs start in
      let spent =
        check_proofs-attempts bytes leaf receipt.payload signature r.candidate_keys 0
          receipt.inclusion_proofs start in
      Within-if n (too_many_attempts (length r.candidate_keys) (length receipt.inclusion_proofs) n)
        (refuse_policy (failed "signature_attempt_limit") r) (after_proofs t r) (omega arith)
        (λ fits.
          after_proofs-Within n t r
            (ground (arith, mul_comm (length r.candidate_keys) (length receipt.inclusion_proofs))))

  after_keys-Within :
      (receipt : Receipt) (t : Configured) (r : Report)
      → r.signature_attempts ≡ 0
      → Within r.policy.limits.max_signature_attempts (after_keys lib receipt t r)
  unfolding after_keys
  after_keys-Within receipt (Configured.too_many_keys t) r h = omega arith
  after_keys-Within receipt (Configured.all_keys t) r h =
      run_proofs-Within receipt (set_keys lib t r) h

  run_receipt-Within :
      (d : Result Error Receipt) (r : Report)
      → r.signature_attempts ≡ 0
      → Within r.policy.limits.max_signature_attempts (run_receipt lib d r)
  unfolding run_receipt
  run_receipt-Within (err e) r h = omega arith
  run_receipt-Within (ok receipt) r h = after_keys-Within receipt _ r h

  run_candidate-Within :
      (d : Result Error (List ℕ)) (r : Report)
      → r.signature_attempts ≡ 0
      → Within r.policy.limits.max_signature_attempts (run_candidate lib d r)
  unfolding run_candidate
  run_candidate-Within (err e) r h = omega arith
  run_candidate-Within (ok candidate) r h =
      let derived : Report = record r {
        candidate_derivation = passed "exact_statement_candidate_derived_not_outer_validation";
        candidate_entry = some candidate;
      } in
      let decoded = from_cose_sign1 lib.receipts.cbor r.envelope.encoded_receipt in
      Within-if r.policy.limits.max_signature_attempts
        (not (bounded_context r.trust_context r.policy.limits))
        (refuse_policy (failed "trust_context_limit") derived) (run_receipt lib decoded derived)
        (omega arith) (λ fits. run_receipt-Within decoded derived h)

  run-Within :
      (r : Report)
      → r.signature_attempts ≡ 0
      → Within r.policy.limits.max_signature_attempts (run lib r)
  unfolding run
  run-Within r h =
      let n = r.policy.limits.max_signature_attempts in
      let derived = derive_candidate_entry lib.receipts.cbor r.statement_bytes in
      let end = run_candidate lib derived r in
      let scanned = not (is_done (preflight lib r.statement_bytes r.policy.limits)) in
      let unscanned = refuse_candidate (failed "statement_cbor_preflight") r in
      let long = ltb r.policy.limits.max_statement_bytes (length r.statement_bytes) in
      let too_long = refuse_candidate (failed "statement_byte_limit") r in
      let invalid = refuse_policy (failed "invalid_phase2_limits") r in
      let after_length = if scanned then unscanned else end in
      let after_limits = if long then too_long else after_length in
      Within-if n (not (inspected r.envelope)) r
        (if not (limits_valid r.policy.limits) then invalid else after_limits) (omega arith)
        (λ i.
          Within-if n (not (limits_valid r.policy.limits)) invalid after_limits (omega arith) (λ l.
            Within-if n long too_long after_length (omega arith) (λ s.
              Within-if n scanned unscanned end (omega arith)
                (λ d. run_candidate-Within derived r h))))

  -- A verification never attempts more signatures than its policy allows, whatever the receipt, the
  -- statement, the context and the libraries.
  pub verify_scitt_receipt-attempts :
      (receipt_bytes statement_bytes : List ℕ) (c : TsTrustContext)
      (policy : ReceiptVerificationPolicy)
      → (verify_scitt_receipt lib receipt_bytes statement_bytes c policy).signature_attempts
        ≤ policy.limits.max_signature_attempts
  unfolding verify_scitt_receipt initial_report
  verify_scitt_receipt-attempts receipt_bytes statement_bytes c policy = run-Within _ refl
