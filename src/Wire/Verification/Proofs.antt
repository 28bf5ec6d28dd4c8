-- ===== src/Wire/Verification/Proofs.antt =====
-- crates/pask-wire/src/receipt_verification.rs: the loop of `run` over the proofs, and `aggregate`.
use pask_workspace.Prelude.{
  ℕ, suc, ◌+◌, ◌&&◌, not, if◌then◌else◌, Bool, true, false, List, [], ◌∷◌, ◌++◌, Option, none, some,
  String, length, is_empty, bytes_eq, Result, ok, err,
}
use pask_workspace.Wire.Error.{Error}
use pask_workspace.Wire.Merkle.{InclusionProof, reconstruct_root}
use pask_workspace.Wire.Receipt.{sig_structure}
use pask_workspace.Wire.Inspection.{Status, Finding}
use pask_workspace.Wire.Verification.{
  VerifyingKeyEvidence, ProofVerification, VerificationLibraries, finding, skipped, unestablished,
  failed, passed,
}

-- `b.as_slice() != root` of an attached payload
abbrev pub mismatched : Option (List ℕ) → List ℕ → Bool
mismatched none root = false
mismatched (some attached) root = not (bytes_eq attached root)

abbrev pub attached_finding : Option (List ℕ) → Finding
attached_finding (some attached) = passed "attached_root_equal_not_authenticated"
attached_finding none =
    finding Status.not_evaluated "detached_payload"
      "No attached root; signature must authenticate the reconstructed root."

-- The row of a proof before it is checked.
abbrev pub fresh_proof : ℕ → ProofVerification
fresh_proof i = record {
  proof_index = i;
  reconstructed_root = none;
  root_reconstruction = skipped;
  attached_root_equality = skipped;
  ts_signature = skipped;
  inclusion = unestablished "root_not_authenticated";
  verifying_key_indices = [];
}

abbrev pub rooted : List ℕ → ProofVerification → ProofVerification
rooted root p = record p {
  reconstructed_root = some root;
  root_reconstruction = passed "root_reconstructed_not_authenticated";
}

-- The findings after the signature attempts with `keys` candidate keys.
unfoldable pub signature_findings :
    List VerifyingKeyEvidence → List ℕ → ProofVerification → ProofVerification
signature_findings keys [] p = record p {
  ts_signature =
      if is_empty keys
      then unestablished "no_algorithm_compatible_candidate_key"
      else failed "signature_did_not_verify";
  verifying_key_indices = [];
}
signature_findings keys (k ∷ ks) p = record p {
  ts_signature = passed "signature_under_actual_supplied_key";
  inclusion = passed "candidate_included_in_signature_authenticated_root";
  verifying_key_indices = k ∷ ks;
}

-- The rows pushed and the signature attempts made, and whether the loop came to its end.
pub record ProofTable : Type 0 where
  pub proofs : List ProofVerification
  pub signature_attempts : ℕ

pub data Checked : Type 0 where
  all_proofs : ProofTable → Checked
  unencoded : ProofTable → Checked

module _ (lib : VerificationLibraries) where
  abbrev pub verifies : Option lib.receipts.Key → List ℕ → lib.receipts.Signature → Bool
  verifies none signed signature = false
  verifies (some key) signed signature = lib.verify_strict key signed signature

  -- The indices of the keys under which the signature holds, from index `ki`.
  unfoldable pub verifying_keys :
      List ℕ → lib.receipts.Signature → ℕ → List VerifyingKeyEvidence → List ℕ
  verifying_keys signed signature ki [] = []
  verifying_keys signed signature ki (key ∷ keys) =
      let rest = verifying_keys signed signature (suc ki) keys in
      if verifies (lib.from_bytes key.public_key) signed signature then ki ∷ rest else rest

  module _ (protected_bytes leaf : List ℕ) (payload : Option (List ℕ))
      (signature : Option lib.receipts.Signature) (keys : List VerifyingKeyEvidence) where
    -- What a proof comes to: its row and the attempts made, or none where the structure to sign is
    -- not encoded.
    unfoldable pub try_signature :
        List ℕ → ProofVerification → Option lib.receipts.Signature → Option (ProofVerification × ℕ)
    try_signature root p none =
        some (record p { ts_signature = failed "invalid_ed25519_signature_length" }, 0)
    try_signature root p (some sig) =
        elim (lib.receipts.cbor.into_writer (sig_structure protected_bytes root)) [
          | none ↦ none
          | some signed ↦
              some (signature_findings keys (verifying_keys signed sig 0 keys) p, length keys)
        ]

    unfoldable pub check_proof :
        ProofVerification → Result Error (List ℕ) → Option (ProofVerification × ℕ)
    check_proof p (err e) = some (
      record p {
        root_reconstruction = failed "invalid_merkle_path";
        inclusion = failed "invalid_merkle_path";
      },
      0,
    )
    check_proof p (ok root) =
        if mismatched payload root
        then some (
          record (rooted root p) {
            attached_root_equality = failed "attached_root_mismatch";
            inclusion = failed "attached_root_mismatch";
          },
          0,
        )
        else try_signature root
            (record (rooted root p) { attached_root_equality = attached_finding payload }) signature

    abbrev pub push_proof :
        Option (ProofVerification × ℕ) → ProofTable → (ProofTable → Checked) → Checked
    push_proof none t next = Checked.unencoded t
    push_proof (some (p, attempts)) t next = next (record {
      proofs = t.proofs ++ (p ∷ []);
      signature_attempts = t.signature_attempts + attempts;
    })

    -- The loop.
    unfoldable pub check_proofs : ℕ → List InclusionProof → ProofTable → Checked
    check_proofs i [] t = Checked.all_proofs t
    check_proofs i (proof ∷ rest) t =
        push_proof (check_proof (fresh_proof i) (reconstruct_root lib.receipts.sha256 proof leaf)) t
          (check_proofs (suc i) rest)

abbrev pub is_passed : Status → Bool
is_passed Status.passed = true
is_passed _ = false

abbrev pub is_failed : Status → Bool
is_failed Status.failed = true
is_failed _ = false

abbrev pub is_not_evaluated : Status → Bool
is_not_evaluated Status.not_evaluated = true
is_not_evaluated _ = false

abbrev pub any_finding : (Status → Bool) → List Finding → Bool
any_finding test [] = false
any_finding test (f ∷ fs) = if test f.status then true else any_finding test fs

abbrev pub all_findings : (Status → Bool) → List Finding → Bool
all_findings test [] = true
all_findings test (f ∷ fs) = test f.status && all_findings test fs

-- `aggregate`
unfoldable pub aggregate : List Finding → String → Finding
aggregate fs code =
    if any_finding is_failed fs
    then failed code
    else if all_findings is_passed fs && not (is_empty fs)
    then passed code
    else if all_findings is_not_evaluated fs
    then skipped
    else unestablished code
