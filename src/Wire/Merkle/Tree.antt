-- ===== src/Wire/Merkle/Tree.antt =====
-- The Merkle tree hash and the audit path of RFC 9162 (sections 2.1.1 and 2.1.3.1), the description
-- that an inclusion proof is held to. `h` is a height with at most 2 ^ h entries: where more than
-- 2 ^ h of at most 2 ^ (h + 1) entries are there, 2 ^ h is the largest power of two below their number.
use pask_workspace.Prelude.{
  ℕ, zero, suc, ◌-◌, ◌^◌, List, [], ◌∷◌, ◌++◌, leb, ltb, if◌then◌else◌, length, take, drop,
}
use pask_workspace.Wire.Merkle.{Bytes, leaf_hash, node_hash}

module _ (sha256 : Bytes → Bytes) where
  unfoldable pub tree_hash : ℕ → List Bytes → Bytes
  tree_hash h [] = sha256 []
  tree_hash zero (d ∷ ds) = leaf_hash sha256 d
  tree_hash (suc h) (d ∷ ds) =
      let all = tree_hash h (d ∷ ds) in
      let left = tree_hash h (take (2 ^ h) (d ∷ ds)) in
      let right = tree_hash h (drop (2 ^ h) (d ∷ ds)) in
      if leb (length (d ∷ ds)) (2 ^ h) then all else node_hash sha256 left right

  unfoldable pub audit_path : ℕ → ℕ → List Bytes → List Bytes
  audit_path zero m ds = []
  audit_path (suc h) m ds =
      let all = audit_path h m ds in
      let left = audit_path h m (take (2 ^ h) ds) ++ (tree_hash h (drop (2 ^ h) ds) ∷ []) in
      let right =
        audit_path h (m - 2 ^ h) (drop (2 ^ h) ds) ++ (tree_hash h (take (2 ^ h) ds) ∷ []) in
      if leb (length ds) (2 ^ h) then all else if ltb m (2 ^ h) then left else right
