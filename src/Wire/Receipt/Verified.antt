-- ===== src/Wire/Receipt/Verified.antt =====
-- What a verified receipt proves.
use pask_workspace.Prelude.{
  ℕ, ◌≡◌, refl, arith, true, List, [], ◌∷◌, ◌++◌, Option, none, some, Result, ok, err, Bool-cases,
  ◌⊎◌, inl, inr, ap, subst,
}
use pask_workspace.Wire.Error.{Error}
use pask_workspace.Wire.Merkle.{InclusionProof, leaf_hash, reconstruct_root}
use pask_workspace.Wire.Receipt.{
  Receipt, VerifiedInclusion, ReceiptLibraries, is_rfc9162, payload_fits, signed_bytes,
  check_signature, check_root, try_proofs, verify_with, verify_decoded,
}

module _ (lib : ReceiptLibraries) where
  -- One proof of the receipt reconstructs the root from the entry's leaf, the root is the payload
  -- where one is attached, and the signature covers it.
  pub record IsProven (receipt : Receipt) (key : lib.Key) (leaf : List ℕ)
      (proofs : List InclusionProof) (v : VerifiedInclusion) : Type 0 where
    pub before : List InclusionProof
    pub proof : InclusionProof
    pub after : List InclusionProof
    pub present : proofs ≡ before ++ (proof ∷ after)
    pub tree_size : v.tree_size ≡ proof.tree_size
    pub leaf_index : v.leaf_index ≡ proof.leaf_index
    pub reconstructed : reconstruct_root lib.sha256 proof leaf ≡ ok v.root
    pub attached : payload_fits receipt.payload v.root ≡ true
    pub signature : lib.Signature
    pub signature_read : lib.from_slice receipt.signature ≡ some signature
    pub signed : List ℕ
    pub encoded : signed_bytes lib receipt v.root ≡ ok signed
    pub covered : lib.verify key signed signature ≡ true

  module _ (receipt : Receipt) (key : lib.Key) (sig : lib.Signature)
      (read : lib.from_slice receipt.signature ≡ some sig) where
    later :
        (leaf : List ℕ) (p : InclusionProof) (proofs : List InclusionProof) (v : VerifiedInclusion)
        → IsProven receipt key leaf proofs v
        → IsProven receipt key leaf (p ∷ proofs) v
    later leaf p proofs v h = record {
      before = p ∷ h.before;
      proof = h.proof;
      after = h.after;
      present = ap (λ ps. p ∷ ps) h.present;
      tree_size = h.tree_size;
      leaf_index = h.leaf_index;
      reconstructed = h.reconstructed;
      attached = h.attached;
      signature = h.signature;
      signature_read = h.signature_read;
      signed = h.signed;
      encoded = h.encoded;
      covered = h.covered;
    }

    first :
        (leaf : List ℕ) (p : InclusionProof) (proofs : List InclusionProof) (root signed : List ℕ)
        → reconstruct_root lib.sha256 p leaf ≡ ok root
        → payload_fits receipt.payload root ≡ true
        → signed_bytes lib receipt root ≡ ok signed
        → lib.verify key signed sig ≡ true
        → IsProven receipt key leaf
            (p ∷ proofs)
            (record { root = root; tree_size = p.tree_size; leaf_index = p.leaf_index })
    first leaf p proofs root signed r a e c = record {
      before = [];
      proof = p;
      after = proofs;
      present = refl;
      tree_size = refl;
      leaf_index = refl;
      reconstructed = r;
      attached = a;
      signature = sig;
      signature_read = read;
      signed = signed;
      encoded = e;
      covered = c;
    }

    abbrev found : InclusionProof → List ℕ → VerifiedInclusion
    found p root = record { root = root; tree_size = p.tree_size; leaf_index = p.leaf_index }

    check_signature-ok :
        (p : InclusionProof) (root : List ℕ) (r : Result Error (List ℕ))
        (next : Error → Result Error VerifiedInclusion) (v : VerifiedInclusion)
        → check_signature lib receipt key sig p root r next ≡ ok v
        → ((e : Error) × (next e ≡ ok v))
          ⊎ ((signed : List ℕ) × (r ≡ ok signed)
              × (lib.verify key signed sig ≡ true)
              × (found p root ≡ v))
    unfolding check_signature
    check_signature-ok p root (err e) next v h = cc
    check_signature-ok p root (ok signed) next v h = elim (Bool-cases (lib.verify key signed sig)) [
      | inl t ↦ inr (signed, refl, t, ground arith)
      | inr f ↦ inl (Error.signature, ground arith)
    ]

    check_root-ok :
        (leaf : List ℕ) (p : InclusionProof) (proofs : List InclusionProof)
        (next : Error → Result Error VerifiedInclusion) (v : VerifiedInclusion)
        (r : Result Error (List ℕ))
        → reconstruct_root lib.sha256 p leaf ≡ r
        → check_root lib receipt key sig p r next ≡ ok v
        → ((e : Error) × (next e ≡ ok v)) ⊎ IsProven receipt key leaf (p ∷ proofs) v
    unfolding check_root
    check_root-ok leaf p proofs next v (err e) q h = inl (e, h)
    check_root-ok leaf p proofs next v (ok root) q h =
        elim (Bool-cases (payload_fits receipt.payload root)) [
          | inr f ↦ inl (
            Error.receipt "reconstructed root does not match the receipt's attached payload",
            ground arith,
          )
          | inl t ↦
              elim (check_signature-ok p root (signed_bytes lib receipt root) next v
                (ground arith)) [
                  | inl (e, n) ↦ inl (e, n)
                  | inr (signed, b, c, same) ↦ inr (
                      subst (IsProven receipt key leaf (p ∷ proofs)) same
                        (first leaf p proofs root signed q t b c))
                ]
        ]

    try_proofs-ok :
        (leaf : List ℕ) (proofs : List InclusionProof) (last : Error) (v : VerifiedInclusion)
        → try_proofs lib receipt key sig leaf proofs last ≡ ok v
        → IsProven receipt key leaf proofs v
    unfolding try_proofs
    try_proofs-ok leaf [] last v h = cc
    try_proofs-ok leaf (p ∷ proofs) last v h =
        elim (check_root-ok leaf p proofs (try_proofs lib receipt key sig leaf proofs) v
          (reconstruct_root lib.sha256 p leaf) refl h) [
            | inl (e, n) ↦ later leaf p proofs v (try_proofs-ok leaf proofs e v n)
            | inr proven ↦ proven
          ]

  verify_with-ok :
      (receipt : Receipt) (entry : List ℕ) (key : lib.Key) (o : Option lib.Signature)
      (v : VerifiedInclusion)
      → lib.from_slice receipt.signature ≡ o
      → verify_with lib receipt entry key o ≡ ok v
      → IsProven receipt key (leaf_hash lib.sha256 entry) receipt.inclusion_proofs v
  unfolding verify_with
  verify_with-ok receipt entry key none v q h = cc
  verify_with-ok receipt entry key (some sig) v q h =
      try_proofs-ok receipt key sig q (leaf_hash lib.sha256 entry) receipt.inclusion_proofs _ v h

  -- A decoded receipt verifies for an entry only if its structure is RFC9162_SHA256 and one of its
  -- proofs reconstructs, from the leaf hash of the entry, the root that is returned, which is the
  -- attached payload if there is one and is covered by a signature that holds under the key; the
  -- tree size and the index returned are those of that proof.
  pub verify_decoded-ok :
      (receipt : Receipt) (entry : List ℕ) (key : lib.Key) (v : VerifiedInclusion)
      → verify_decoded lib receipt entry key ≡ ok v
      → (is_rfc9162 receipt.vds ≡ true)
        × IsProven receipt key (leaf_hash lib.sha256 entry) receipt.inclusion_proofs v
  unfolding verify_decoded
  verify_decoded-ok receipt entry key v h = elim (Bool-cases (is_rfc9162 receipt.vds)) [
    | inl t ↦ (
      t,
      verify_with-ok receipt entry key (lib.from_slice receipt.signature) v refl (ground arith),
    )
    | inr f ↦ absurd (ground arith)
  ]
