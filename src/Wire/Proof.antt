-- ===== src/Wire/Proof.antt =====
-- crates/pask-wire/src/receipt.rs: `InclusionProof::from_wrapped_cbor`.
pub mod Decode
use pask_workspace.Prelude.{
  ℕ, ◌==◌, if◌then◌else◌, List, [], ◌∷◌, Option, none, some, length, Result, ok, err, ◌>>=◌, ok_or,
}
use pask_workspace.Wire.Error.{Error}
use pask_workspace.Wire.Cbor.{Value, Values, CborLibrary, unsigned, whole}
use pask_workspace.Wire.Merkle.{InclusionProof}

-- The loop over the elements of the path.
unfoldable pub path_hashes : Values → Result Error (List (List ℕ))
path_hashes Values.nil = ok []
path_hashes (Values.cons (Value.bytes hash) path) =
    let rest = (do hashes ← path_hashes path; ok (hash ∷ hashes)) in
    if length hash == 32
    then rest
    else err (Error.receipt "inclusion proof inclusion_path elements must be 32 bytes")
path_hashes (Values.cons _ path) =
    err (Error.receipt "inclusion proof inclusion_path elements must be byte strings")

unfoldable pub proof_path : Value → Result Error (List (List ℕ))
proof_path (Value.array Values.nil) =
    err (Error.receipt "inclusion proof inclusion_path must not be empty")
proof_path (Value.array (Values.cons first path)) = path_hashes (Values.cons first path)
proof_path _ = err (Error.receipt "inclusion proof inclusion_path must be an array")

unfoldable pub proof_fields : Value → Value → Value → Result Error InclusionProof
proof_fields size index path = do
  tree_size ← ok_or (unsigned size) (Error.receipt "inclusion proof tree_size must be a uint")
  leaf_index ← ok_or (unsigned index) (Error.receipt "inclusion proof leaf_index must be a uint")
  inclusion_path ← proof_path path
  ok (record { tree_size = tree_size; leaf_index = leaf_index; inclusion_path = inclusion_path })

unfoldable pub proof_elements : Value → Result Error InclusionProof
proof_elements (Value.array (Values.cons size (Values.cons index (Values.cons path Values.nil)))) =
    proof_fields size index path
proof_elements (Value.array _) =
    err (Error.receipt "inclusion proof must carry exactly three elements")
proof_elements _ = err (Error.receipt "inclusion proof must be a CBOR array")

module _ (cbor : CborLibrary) where
  unfoldable pub from_wrapped_cbor : List ℕ → Result Error InclusionProof
  from_wrapped_cbor wrapped = do
    value ←
        whole (cbor.from_reader wrapped) (Error.receipt "inclusion proof is not valid CBOR")
          (Error.receipt "trailing bytes after inclusion proof")
    proof_elements value
