-- ===== src/Wire/Merkle/Tests.antt =====
-- Runs and instances over a stand-in for SHA-256.
use pask_workspace.Prelude.{
  ℕ, ◌+◌, ◌≤◌, ◌<◌, ◌%◌, ◌≡◌, refl, ◌⊎◌, arith, some, List, [], ◌∷◌, replicate, get_elem?, ok,
}
use pask_workspace.Wire.Merkle.{
  Bytes, InclusionProof, skip_levels, sibling_is_left, climb, leaf_hash, node_hash, combine, walk,
  reconstruct_root,
}
use pask_workspace.Wire.Merkle.Tree.{tree_hash, audit_path}
use pask_workspace.Wire.Merkle.Complete.{reconstruct_root-audit_path}
use pask_workspace.Wire.Merkle.Sound.{Collision, reconstruct_root_sound}
use pask_workspace.Wire.Merkle.Bounds.{length-reconstruct_root}
use pask_workspace.Wire.Merkle.Steps.{IsLeastShift, skip_levels_stops}

-- 32 bytes, each the sum of the input.
abbrev total : Bytes → ℕ
total [] = 0
total (x ∷ xs) = x + total xs

abbrev toy_hash : Bytes → Bytes
toy_hash x = replicate 32 (total x % 256)

abbrev entries : List Bytes
entries = (1 ∷ []) ∷ (2 ∷ 3 ∷ []) ∷ (7 ∷ []) ∷ []

-- The last of three leaves: its path is the one hash over the first two.
abbrev last_proof : InclusionProof
last_proof = record { tree_size = 3; leaf_index = 2; inclusion_path = replicate 32 193 ∷ [] }

last_path : audit_path toy_hash 2 2 entries ≡ replicate 32 193 ∷ []
unfolding audit_path tree_hash leaf_hash node_hash
last_path = refl

reconstruct_root-audit_path_example :
    reconstruct_root toy_hash
      (record { tree_size = 3; leaf_index = 2; inclusion_path = audit_path toy_hash 2 2 entries })
      (leaf_hash toy_hash (7 ∷ []))
    ≡ ok (tree_hash toy_hash 2 entries)
reconstruct_root-audit_path_example =
    reconstruct_root-audit_path toy_hash 2 2 entries (7 ∷ []) (omega arith) refl

last_proof_reconstructs :
    reconstruct_root toy_hash last_proof (leaf_hash toy_hash (7 ∷ []))
    ≡ ok (tree_hash toy_hash 2 entries)
unfolding reconstruct_root walk climb sibling_is_left skip_levels combine leaf_hash node_hash
    tree_hash
last_proof_reconstructs = refl

reconstruct_root_sound_example :
    ((get_elem? entries 2 ≡ some (7 ∷ []))
      × (replicate 32 193 ∷ [] ≡ audit_path toy_hash 2 2 entries))
    ⊎ Collision toy_hash
reconstruct_root_sound_example =
    reconstruct_root_sound toy_hash (λ x. refl) 2 entries last_proof (7 ∷ []) refl (omega arith)
      (omega arith) last_proof_reconstructs

length-reconstruct_root_example : (2 < 3) × (1 ≤ 2)
length-reconstruct_root_example =
    length-reconstruct_root toy_hash 2 last_proof (leaf_hash toy_hash (7 ∷ []))
      (tree_hash toy_hash 2 entries) (omega arith) last_proof_reconstructs

skip_levels_stops_example : IsLeastShift 12 12 (skip_levels 13 12 12)
skip_levels_stops_example = skip_levels_stops 13 12 12 (omega arith)
