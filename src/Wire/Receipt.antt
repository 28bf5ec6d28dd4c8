-- ===== src/Wire/Receipt.antt =====
-- crates/pask-wire/src/receipt.rs: a decoded `Receipt` and `verify_inclusion` from there on; Decode
-- has `from_cose_sign1`, Attached `attached_receipts`. SHA-256, Ed25519 and CBOR are parameters.
pub mod Verified
pub mod Decode
pub mod Attached
pub mod Included
pub mod Container
mod Tests
use pask_workspace.Prelude.{
  ℕ, ℤ, zero, suc, Bool, true, false, not, ◌==◌, if◌then◌else◌, List, [], ◌∷◌, Option, none, some,
  Text, ascii, bytes_eq, Result, ok, err,
}
use pask_workspace.Wire.Error.{Error}
use pask_workspace.Wire.Cbor.{Value, Values, CborLibrary, written}
use pask_workspace.Wire.Merkle.{InclusionProof, leaf_hash, reconstruct_root}

pub record Receipt : Type 0 where
  pub vds : ℤ
  pub inclusion_proofs : List InclusionProof
  pub payload : Option (List ℕ)
  pub protected_raw : List ℕ
  pub signature : List ℕ

pub record VerifiedInclusion : Type 0 where
  pub root : List ℕ
  pub tree_size : ℕ
  pub leaf_index : ℕ

pub record ReceiptLibraries : Type 1 where
  pub cbor : CborLibrary
  pub sha256 : List ℕ → List ℕ
  -- ed25519-dalek
  pub Key : Type 0
  pub Signature : Type 0
  pub from_slice : List ℕ → Option Signature
  pub verify : Key → List ℕ → Signature → Bool

-- `vds == RFC9162_SHA256`
abbrev pub is_rfc9162 : ℤ → Bool
is_rfc9162 (ℤ.pos n) = n == 1
is_rfc9162 (ℤ.negsuc n) = false

-- The attached payload, if there is one, is the root.
abbrev pub payload_fits : Option (List ℕ) → List ℕ → Bool
payload_fits none root = true
payload_fits (some attached) root = bytes_eq attached root

-- The `Sig_structure`.
unfoldable pub sig_structure : List ℕ → List ℕ → Value
sig_structure protected_raw root = Value.array (
    Values.cons (Value.text (ascii "Signature1")) (
      Values.cons (Value.bytes protected_raw)
        (Values.cons (Value.bytes []) (Values.cons (Value.bytes root) Values.nil))))

module _ (lib : ReceiptLibraries) where
  unfoldable pub signed_bytes : Receipt → List ℕ → Result Error (List ℕ)
  signed_bytes receipt root =
      written (lib.cbor.into_writer (sig_structure receipt.protected_raw root))
        (Error.receipt "failed to encode Sig_structure")

  module _ (receipt : Receipt) (key : lib.Key) (signature : lib.Signature) where
    -- From the signature check of one proof; `next` is the rest of the loop after this proof.
    unfoldable pub check_signature :
        InclusionProof
        → List ℕ
        → Result Error (List ℕ)
        → (Error → Result Error VerifiedInclusion)
        → Result Error VerifiedInclusion
    check_signature proof root (err e) next = err e
    check_signature proof root (ok signed) next =
        if lib.verify key signed signature
        then ok (record { root = root; tree_size = proof.tree_size; leaf_index = proof.leaf_index })
        else next Error.signature

    -- One round of the loop, from the reconstructed root.
    unfoldable pub check_root :
        InclusionProof
        → Result Error (List ℕ)
        → (Error → Result Error VerifiedInclusion)
        → Result Error VerifiedInclusion
    check_root proof (err e) next = next e
    check_root proof (ok root) next =
        if not (payload_fits receipt.payload root)
        then next (Error.receipt "reconstructed root does not match the receipt's attached payload")
        else check_signature proof root (signed_bytes receipt root) next

    -- The loop; `last` is the error of the proof before.
    unfoldable pub try_proofs :
        List ℕ → List InclusionProof → Error → Result Error VerifiedInclusion
    try_proofs leaf [] last = err last
    try_proofs leaf (proof ∷ proofs) last =
        check_root proof (reconstruct_root lib.sha256 proof leaf) (try_proofs leaf proofs)

  unfoldable pub verify_with :
      Receipt → List ℕ → lib.Key → Option lib.Signature → Result Error VerifiedInclusion
  verify_with receipt entry key none = err Error.signature
  verify_with receipt entry key (some signature) =
      try_proofs receipt key signature (leaf_hash lib.sha256 entry) receipt.inclusion_proofs
        (Error.receipt "receipt carried no usable inclusion proof")

  unfoldable pub verify_decoded : Receipt → List ℕ → lib.Key → Result Error VerifiedInclusion
  verify_decoded receipt entry key =
      if not (is_rfc9162 receipt.vds)
      then err (
          Error.receipt "unsupported verifiable data structure; only RFC9162_SHA256 is implemented")
      else verify_with receipt entry key (lib.from_slice receipt.signature)
