-- ===== src/Wire/Receipt/Included.antt =====
-- What `verify_inclusion` on the bytes of a receipt proves.
use pask_workspace.Prelude.{ℕ, ◌≡◌, true, List, ok, >>=-eq-ok}
use pask_workspace.Wire.Merkle.{leaf_hash}
use pask_workspace.Wire.Receipt.{
  Receipt, VerifiedInclusion, ReceiptLibraries, is_rfc9162, verify_decoded,
}
use pask_workspace.Wire.Receipt.Verified.{IsProven, verify_decoded-ok}
use pask_workspace.Wire.Receipt.Decode.{from_cose_sign1, verify_inclusion}

module _ (lib : ReceiptLibraries) where
  -- A receipt verifies for an entry only if its bytes decode as a receipt of the structure
  -- RFC9162_SHA256, one of whose proofs reconstructs, from the leaf hash of the entry, the root
  -- that is returned, which is the attached payload if there is one and is covered by a signature
  -- that holds under the key; the tree size and the index returned are those of that proof.
  pub verify_inclusion-ok :
      (bytes entry : List ℕ) (key : lib.Key) (v : VerifiedInclusion)
      → verify_inclusion lib bytes entry key ≡ ok v
      → (receipt : Receipt) × (from_cose_sign1 lib.cbor bytes ≡ ok receipt)
        × (is_rfc9162 receipt.vds ≡ true)
        × IsProven lib receipt key (leaf_hash lib.sha256 entry) receipt.inclusion_proofs v
  unfolding verify_inclusion
  verify_inclusion-ok bytes entry key v h =
      let (receipt, decoded, verified) =
        >>=-eq-ok (from_cose_sign1 lib.cbor bytes) (λ r. verify_decoded lib r entry key) h in
      let (tree, proven) = verify_decoded-ok lib receipt entry key v verified in
      (receipt, decoded, tree, proven)
