-- ===== src/Wire/Verification/Rows.antt =====
-- What the rows of the proofs say of the proofs.
use pask_workspace.Prelude.{
  ℕ, zero, suc, ◌+◌, ◌≤◌, bytes_eq→eq, ◌≡◌, refl, arith, inl, inr, ◌&&◌, Bool, true, false, List,
  [], ◌∷◌, ◌++◌, Option, none, some, length, bytes_eq, get_elem?, All, Bool-cases, Result, ok, err,
  sym, subst,
}
use pask_workspace.Wire.Error.{Error}
use pask_workspace.Wire.Merkle.{InclusionProof, reconstruct_root}
use pask_workspace.Wire.Receipt.{sig_structure}
use pask_workspace.Wire.Verification.{
  VerifyingKeyEvidence, ProofVerification, VerificationLibraries,
}
use pask_workspace.Wire.Verification.Proofs.{
  ProofTable, Checked, mismatched, attached_finding, fresh_proof, rooted, signature_findings,
  verifies, verifying_keys, try_signature, check_proof, push_proof, check_proofs, is_passed,
  all_findings,
}
use pask_workspace.Wire.Verification.Run.{agree, inclusions}

-- A row whose inclusion passed, and whose only key is the one at an index.
abbrev pub has_passed : ℕ → ProofVerification → Bool
has_passed index p = is_passed p.inclusion.status && bytes_eq p.verifying_key_indices (index ∷ [])

module _ (lib : VerificationLibraries) where
  verifying_keys-head :
      (signed : List ℕ) (sig : lib.receipts.Signature) (keys : List VerifyingKeyEvidence)
      (start j : ℕ) (rest : List ℕ)
      → verifying_keys lib signed sig start keys ≡ j ∷ rest
      → start ≤ j
  unfolding verifying_keys
  verifying_keys-head signed sig [] start j rest h = cc
  verifying_keys-head signed sig (key ∷ keys) start j rest h =
      elim (Bool-cases (verifies lib (lib.from_bytes key.public_key) signed sig)) [
        | inl t ↦ ground arith
        | inr f ↦
            let later = verifying_keys-head signed sig keys (suc start) j rest (ground arith) in
            omega arith
      ]

  -- The key at an index verifies, where the index is one that the search gives.
  verifying_keys_sound :
      (signed : List ℕ) (sig : lib.receipts.Signature) (keys : List VerifyingKeyEvidence)
      (start n j : ℕ) (rest : List ℕ) (k : VerifyingKeyEvidence)
      → j ≡ start + n
      → verifying_keys lib signed sig start keys ≡ j ∷ rest
      → get_elem? keys n ≡ some k
      → verifies lib (lib.from_bytes k.public_key) signed sig ≡ true
  unfolding verifying_keys
  verifying_keys_sound signed sig [] start n j rest k e h g = cc
  verifying_keys_sound signed sig (key ∷ keys) start zero j rest k e h g =
      elim (Bool-cases (verifies lib (lib.from_bytes key.public_key) signed sig)) [
        | inl t ↦ ground arith
        | inr f ↦
            let later = verifying_keys-head signed sig keys (suc start) j rest (ground arith) in
            absurd (omega arith)
      ]
  verifying_keys_sound signed sig (key ∷ keys) start (suc n) j rest k e h g =
      elim (Bool-cases (verifies lib (lib.from_bytes key.public_key) signed sig)) [
        | inl t ↦ absurd (ground arith)
        | inr f ↦
            verifying_keys_sound signed sig keys (suc start) n j rest k (omega arith) (ground arith)
              g
      ]

  module _ (protected_bytes : List ℕ) (payload : Option (List ℕ))
      (signature : Option lib.receipts.Signature) where
    -- The key signs a root that the proof reconstructs from the leaf.
    pub record IsIncluded (key : List ℕ) (r : Result Error (List ℕ)) : Type 0 where
      pub root : List ℕ
      pub reconstructed : r ≡ ok root
      pub attached : mismatched payload root ≡ false
      pub read : lib.receipts.Signature
      pub signature_read : signature ≡ some read
      pub message : List ℕ
      pub encoded :
          lib.receipts.cbor.into_writer (sig_structure protected_bytes root) ≡ some message
      pub verified : verifies lib (lib.from_bytes key) message read ≡ true

  module _ (protected_bytes leaf : List ℕ) (payload : Option (List ℕ))
      (signature : Option lib.receipts.Signature) (keys : List VerifyingKeyEvidence) where
    -- What `signature_findings` gives where its inclusion passes.
    findings-passed :
        (indices : List ℕ) (p : ProofVerification) (index : ℕ)
        → is_passed p.inclusion.status ≡ false
        → has_passed index (signature_findings keys indices p) ≡ true
        → indices ≡ index ∷ []
    unfolding signature_findings
    findings-passed [] p index unset h = absurd (ground arith)
    findings-passed (k ∷ ks) p index unset h = bytes_eq→eq (k ∷ ks) (index ∷ []) (ground arith)

    abbrev row : Option (ProofVerification × ℕ) → ℕ → Bool
    row none index = false
    row (some (p, n)) index = has_passed index p

    module _ (index : ℕ) (k : VerifyingKeyEvidence)
        (candidate : get_elem? keys index ≡ some k) where
      signed-IsIncluded :
          (root : List ℕ) (sig : lib.receipts.Signature) (o : Option (List ℕ))
          (p : ProofVerification)
          → mismatched payload root ≡ false
          → signature ≡ some sig
          → lib.receipts.cbor.into_writer (sig_structure protected_bytes root) ≡ o
          → is_passed p.inclusion.status ≡ false
          → row
              (elim o [
                | none ↦ none
                | some signed ↦
                    some (
                      signature_findings keys (verifying_keys lib signed sig 0 keys) p,
                      length keys,
                    )
              ])
              index
            ≡ true
          → IsIncluded protected_bytes payload signature k.public_key (ok root)
      signed-IsIncluded root sig none p m s w unset h = absurd (ground arith)
      signed-IsIncluded root sig (some signed) p m s w unset h = record {
        root = root;
        reconstructed = refl;
        attached = m;
        read = sig;
        signature_read = s;
        message = signed;
        encoded = w;
        verified =
            verifying_keys_sound signed sig keys 0 index index [] k (omega arith)
              (findings-passed (verifying_keys lib signed sig 0 keys) p index unset h) candidate;
      }

      try_signature-IsIncluded :
          (root : List ℕ) (p : ProofVerification) (o : Option lib.receipts.Signature)
          → mismatched payload root ≡ false
          → signature ≡ o
          → is_passed p.inclusion.status ≡ false
          → row (try_signature lib protected_bytes leaf payload signature keys root p o) index
            ≡ true
          → IsIncluded protected_bytes payload signature k.public_key (ok root)
      unfolding try_signature
      try_signature-IsIncluded root p none m s unset h = absurd (ground arith)
      try_signature-IsIncluded root p (some sig) m s unset h =
          signed-IsIncluded root sig
            (lib.receipts.cbor.into_writer (sig_structure protected_bytes root)) p m s refl unset h

      check_proof-IsIncluded :
          (i : ℕ) (r : Result Error (List ℕ))
          → row
              (check_proof lib protected_bytes leaf payload signature keys (fresh_proof i) r)
              index
            ≡ true
          → IsIncluded protected_bytes payload signature k.public_key r
      unfolding check_proof
      check_proof-IsIncluded i (err e) h = absurd (ground arith)
      check_proof-IsIncluded i (ok root) h =
          let p : ProofVerification = record (rooted root (fresh_proof i)) {
            attached_root_equality = attached_finding payload;
          } in
          elim (Bool-cases (mismatched payload root)) [
            | inl t ↦ absurd (ground arith)
            | inr f ↦ try_signature-IsIncluded root p signature f refl refl (ground arith)
          ]

      -- The last row of a table, and the rows before it.
      all_pass-append :
          (ps : List ProofVerification) (p : ProofVerification)
          → all_findings is_passed (inclusions (ps ++ (p ∷ []))) ≡ true
          → agree (index ∷ []) (ps ++ (p ∷ [])) ≡ true
          → (all_findings is_passed (inclusions ps) ≡ true)
            × (agree (index ∷ []) ps ≡ true)
            × (has_passed index p ≡ true)
      all_pass-append [] p h g = (refl, refl, ground arith)
      all_pass-append (q ∷ ps) p h g =
          let (a, b, c) = all_pass-append ps p (ground arith) (ground arith) in
          (ground arith, ground arith, c)

      push_proof-passed :
          (o : Option (ProofVerification × ℕ)) (t u : ProofTable) (next : ProofTable → Checked)
          → push_proof lib protected_bytes leaf payload signature keys o t next
            ≡ Checked.all_proofs u
          → (v : ProofTable) × (p : ProofVerification) × (n : ℕ) × (o ≡ some (p, n))
            × (v.proofs ≡ t.proofs ++ (p ∷ []))
            × (next v ≡ Checked.all_proofs u)
      push_proof-passed none t u next h = cc
      push_proof-passed (some (p, n)) t u next h = (_, p, n, refl, refl, h)

      -- Where every row passes, all under the key at the index, that key signs every proof.
      pub check_proofs-IsIncluded :
          (i : ℕ) (proofs : List InclusionProof) (t u : ProofTable)
          → check_proofs lib protected_bytes leaf payload signature keys i proofs t
            ≡ Checked.all_proofs u
          → all_findings is_passed (inclusions u.proofs) ≡ true
          → agree (index ∷ []) u.proofs ≡ true
          → All
              (λ proof.
                IsIncluded protected_bytes payload signature k.public_key
                  (reconstruct_root lib.receipts.sha256 proof leaf))
              proofs
            × (all_findings is_passed (inclusions t.proofs) ≡ true)
            × (agree (index ∷ []) t.proofs ≡ true)
      unfolding check_proofs
      check_proofs-IsIncluded i [] t u e h g =
          let same : t ≡ u = cc in
          (
            tt,
            subst (λ v. all_findings is_passed (inclusions v.proofs) ≡ true) (sym same) h,
            subst (λ v. agree (index ∷ []) v.proofs ≡ true) (sym same) g,
          )
      check_proofs-IsIncluded i (proof ∷ rest) t u e h g =
          let r = reconstruct_root lib.receipts.sha256 proof leaf in
          let o = check_proof lib protected_bytes leaf payload signature keys (fresh_proof i) r in
          let (v, p, n, made, pushed, later) = push_proof-passed o t u _ e in
          let (proven, passes, agrees) = check_proofs-IsIncluded (suc i) rest v u later h g in
          let (before, same, last) =
            all_pass-append t.proofs p
              (subst (λ ps. all_findings is_passed (inclusions ps) ≡ true) pushed passes)
              (subst (λ ps. agree (index ∷ []) ps ≡ true) pushed agrees) in
          (
            (check_proof-IsIncluded i r (subst (λ x. row x index ≡ true) (sym made) last), proven),
            before,
            same,
          )
