-- ===== src/Wire/Merkle/Bounds.antt =====
-- How many siblings a proof may carry.
use pask_workspace.Prelude.{
  ℕ, zero, suc, ◌-◌, ◌/◌, ◌^◌, ◌≤◌, ◌<◌, ◌≡◌, arith, List, [], ◌∷◌, length, ok,
}
use pask_workspace.Wire.Merkle.{
  Bytes, InclusionProof, skip_levels, climb, combine, walk, reconstruct_root,
}
use pask_workspace.Wire.Merkle.Inner.{double}

skip_levels-le : (fuel n l : ℕ) → (skip_levels fuel n l).1 ≤ l
unfolding skip_levels
skip_levels-le zero n l = omega arith
skip_levels-le (suc fuel) n l = ground (arith, skip_levels-le fuel (n / 2) (l / 2))

climb-halves : (n l : ℕ) → (climb n l).1 ≤ l / 2
unfolding climb
climb-halves n l = ground (arith, skip_levels-le (suc n) n l)

module _ (sha256 : Bytes → Bytes) where
  walk-length :
      (h : ℕ) (p : List Bytes) (n l : ℕ) (r root : Bytes)
      → l < 2 ^ h
      → walk sha256 p n l r ≡ ok root
      → length p ≤ h
  unfolding walk
  walk-length h [] n l r root k e = omega arith
  walk-length zero (s ∷ p) n l r root k e = absurd (ground arith)
  walk-length (suc h) (s ∷ p) n l r root k e = ground (
    arith,
    climb-halves n l,
    double h,
    walk-length h p (climb n l).0 (climb n l).1 (combine sha256 n l s r) root,
  )

  -- A proof that reconstructs a root carries at most as many siblings as the tree is high: at most
  -- `h` for a tree of at most 2 ^ h entries. Longer paths are refused.
  pub length-reconstruct_root :
      (h : ℕ) (proof : InclusionProof) (leaf root : Bytes)
      → proof.tree_size ≤ 2 ^ h
      → reconstruct_root sha256 proof leaf ≡ ok root
      → (proof.leaf_index < proof.tree_size) × (length proof.inclusion_path ≤ h)
  unfolding reconstruct_root
  length-reconstruct_root h proof leaf root k e =
      ground
        (arith, walk-length h proof.inclusion_path proof.leaf_index (proof.tree_size - 1) leaf root)
