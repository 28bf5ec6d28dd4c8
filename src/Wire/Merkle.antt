-- ===== src/Wire/Merkle.antt =====
-- crates/pask-wire/src/receipt.rs: Merkle hashes, and the root that an inclusion proof reconstructs.
-- SHA-256 is a parameter; a hash is its list of bytes.
pub mod Tree
pub mod Steps
pub mod Inner
pub mod Complete
pub mod Sound
pub mod Bounds
mod Tests
use pask_workspace.Prelude.{
  ℕ, zero, suc, ◌-◌, ◌/◌, ◌%◌, List, [], ◌∷◌, ◌++◌, Bool, ◌||◌, ltb, ◌==◌, if◌then◌else◌, Result,
  ok, err, not,
}
use pask_workspace.Wire.Error.{Error}

abbrev pub Bytes : Type 0
Bytes = List ℕ

pub record InclusionProof : Type 0 where
  pub tree_size : ℕ
  pub leaf_index : ℕ
  pub inclusion_path : List Bytes

-- The inner loop of step 4b: shift both indices until `node_index` is odd or zero. It shifts
-- before it tests; the first argument is fuel.
unfoldable pub skip_levels : ℕ → ℕ → ℕ → ℕ × ℕ
skip_levels zero node_index last_index = (node_index, last_index)
skip_levels (suc fuel) node_index last_index =
    let rest = skip_levels fuel (node_index / 2) (last_index / 2) in
    if node_index / 2 % 2 == 1 || node_index / 2 == 0
    then (node_index / 2, last_index / 2)
    else rest

-- `node_index & 1 == 1 || node_index == last_index`
unfoldable pub sibling_is_left : ℕ → ℕ → Bool
sibling_is_left node_index last_index = node_index % 2 == 1 || node_index == last_index

-- The indices after steps 4b and 4c. `node_index + 1` rounds are more than the inner loop takes.
unfoldable pub climb : ℕ → ℕ → ℕ × ℕ
climb node_index last_index =
    let (n, l) =
      if sibling_is_left node_index last_index
      then if node_index % 2 == 0
        then skip_levels (suc node_index) node_index last_index
        else (node_index, last_index)
      else (node_index, last_index) in
    (n / 2, l / 2)

module _ (sha256 : Bytes → Bytes) where
  unfoldable pub leaf_hash : Bytes → Bytes
  leaf_hash entry = sha256 (0 ∷ entry)

  unfoldable pub node_hash : Bytes → Bytes → Bytes
  node_hash left right = sha256 (1 ∷ (left ++ right))

  -- The new root of step 4b.
  unfoldable pub combine : ℕ → ℕ → Bytes → Bytes → Bytes
  combine node_index last_index sibling root =
      if sibling_is_left node_index last_index
      then node_hash sibling root
      else node_hash root sibling

  -- Steps 4 and 5: the loop over the path, and the test at its end.
  unfoldable pub walk : List Bytes → ℕ → ℕ → Bytes → Result Error Bytes
  walk [] node_index last_index root =
      if not (last_index == 0)
      then err (Error.receipt "inclusion proof path ended before the root was reached")
      else ok root
  walk (sibling ∷ path) node_index last_index root =
      let (n, l) = climb node_index last_index in
      let rest = walk path n l (combine node_index last_index sibling root) in
      if last_index == 0
      then err (Error.receipt "inclusion proof path is longer than the tree permits")
      else rest

  unfoldable pub reconstruct_root : InclusionProof → Bytes → Result Error Bytes
  reconstruct_root proof leaf =
      if not (ltb proof.leaf_index proof.tree_size)
      then err (Error.receipt "inclusion proof leaf_index is not less than tree_size")
      else walk proof.inclusion_path proof.leaf_index (proof.tree_size - 1) leaf
