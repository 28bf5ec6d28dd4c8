-- ===== src/Wire/Receipt/Tests.antt =====
-- Instances for the receipts, proofs and entries of crates/pask-wire, with a reader that knows one
-- value and a hash that keeps 32 bytes.
use pask_workspace.Prelude.{
  ℕ, ℤ, ◌≤◌, ◌≡◌, refl, ◌↔◌, inl, inr, List, [], ◌∷◌, ◌++◌, none, some, take, replicate, ok,
}
use pask_workspace.Wire.Error.{Error}
use pask_workspace.Wire.Cbor.{Value, Values, Entries, CborLibrary, written, unsigned}
use pask_workspace.Wire.Merkle.{
  InclusionProof, reconstruct_root, walk, combine, climb, sibling_is_left, node_hash, skip_levels,
}
use pask_workspace.Wire.Proof.{
  from_wrapped_cbor, proof_elements, proof_fields, proof_path, path_hashes,
}
use pask_workspace.Wire.Proof.Decode.{
  IsProof, proof_value, from_wrapped_cbor_iff, from_wrapped_cbor-tree_size,
}
use pask_workspace.Wire.Entry.{derive_candidate_entry}
use pask_workspace.Wire.Entry.Attach.{sign1, derive_candidate_entry_attach}
use pask_workspace.Wire.Cbor.Labels.{signed, find_key}
use pask_workspace.Wire.Cbor.Equal.{value_eq}
use pask_workspace.Wire.Receipt.Attached.{
  AttachedReceipts, read_receipts_array, check_labels, is_receipts_key, find_receipts,
}
use pask_workspace.Wire.Receipt.Container.{
  byte_strings, read_receipts_array-byte_strings, find_receipts-absent,
}

-- The first of two entries; its sibling is 32 zeros.
abbrev proof : InclusionProof
proof = record { tree_size = 2; leaf_index = 0; inclusion_path = replicate 32 0 ∷ [] }

abbrev wire_proof : Value
wire_proof = Value.array (
    Values.cons (Value.integer (ℤ.pos 2)) (
      Values.cons (Value.integer (ℤ.pos 0)) (
        Values.cons (Value.array (Values.cons (Value.bytes (replicate 32 0)) Values.nil))
          Values.nil)))

abbrev proof_reader : CborLibrary
proof_reader = record {
  from_reader = λ input. some (wire_proof, []);
  into_writer = λ value. some [];
}

abbrev sample_hash : List ℕ → List ℕ
sample_hash input = take 32 (input ++ replicate 32 0)

from_wrapped_cbor_iff_example :
    (from_wrapped_cbor proof_reader (1 ∷ []) ≡ ok proof)
    ↔ ((proof_reader.from_reader (1 ∷ []) ≡ some (proof_value proof, [])) × IsProof proof)
from_wrapped_cbor_iff_example = from_wrapped_cbor_iff proof_reader (1 ∷ []) proof

proof_read : from_wrapped_cbor proof_reader (1 ∷ []) ≡ ok proof
unfolding from_wrapped_cbor proof_elements proof_fields proof_path path_hashes unsigned
proof_read = refl

abbrev sample_root : List ℕ
sample_root = 1 ∷ 7 ∷ replicate 30 0

root_found : reconstruct_root sample_hash proof (7 ∷ replicate 31 0) ≡ ok sample_root
unfolding reconstruct_root walk combine climb sibling_is_left node_hash skip_levels
root_found = refl

from_wrapped_cbor-tree_size_example : 2 ≤ proof.tree_size
from_wrapped_cbor-tree_size_example =
    from_wrapped_cbor-tree_size proof_reader sample_hash (1 ∷ []) proof (7 ∷ replicate 31 0)
      sample_root proof_read root_found

abbrev headers : Entries
headers = Entries.entry (Value.integer (ℤ.pos 394)) (Value.array Values.nil) Entries.end

-- One byte is the statement as signed, more bytes the statement with receipts, in tag 18.
abbrev statement_value : List ℕ → Value
statement_value [] = Value.null
statement_value (b ∷ []) = sign1 (1 ∷ []) Entries.end (2 ∷ []) (3 ∷ [])
statement_value (b ∷ c ∷ more) = Value.tag 18 (sign1 (1 ∷ []) headers (2 ∷ []) (3 ∷ []))

abbrev statement_reader : CborLibrary
statement_reader = record {
  from_reader = λ input. some (statement_value input, []);
  into_writer = λ value. some (9 ∷ []);
}

derive_candidate_entry_attach_example :
    (derive_candidate_entry statement_reader (0 ∷ [])
      ≡ derive_candidate_entry statement_reader (0 ∷ 0 ∷ []))
    × (derive_candidate_entry statement_reader (0 ∷ 0 ∷ [])
        ≡ written
            (statement_reader.into_writer (sign1 (1 ∷ []) Entries.end (2 ∷ []) (3 ∷ [])))
            (Error.cose "failed to serialize candidate entry"))
derive_candidate_entry_attach_example =
    derive_candidate_entry_attach statement_reader (0 ∷ []) (0 ∷ 0 ∷ []) (statement_value (0 ∷ []))
      (statement_value (0 ∷ 0 ∷ [])) (1 ∷ []) (2 ∷ []) (3 ∷ []) Entries.end headers refl refl
      (inl refl) (inr refl)

read_receipts_array-byte_strings_example :
    read_receipts_array statement_reader (Value.array (byte_strings ((1 ∷ []) ∷ (2 ∷ []) ∷ [])))
    ≡ AttachedReceipts.present ((1 ∷ []) ∷ (2 ∷ []) ∷ [])
read_receipts_array-byte_strings_example =
    read_receipts_array-byte_strings statement_reader (1 ∷ []) ((2 ∷ []) ∷ [])

-- A map with an algorithm, and one with an empty array of receipts.
abbrev algorithm_map : List (Value × Value)
algorithm_map = (Value.integer (ℤ.pos 1), Value.integer (ℤ.negsuc 7)) ∷ []

abbrev empty_receipts : List (Value × Value)
empty_receipts = (Value.integer (ℤ.pos 394), Value.array Values.nil) ∷ []

malformed_found :
    find_receipts statement_reader algorithm_map empty_receipts
    ≡ ok (AttachedReceipts.malformed "receipts header is an empty array")
unfolding find_receipts check_labels value_eq signed read_receipts_array
malformed_found = refl

find_receipts-absent_example :
    (AttachedReceipts.malformed "receipts header is an empty array" ≡ AttachedReceipts.absent) ↔ (
      (find_key (is_receipts_key statement_reader) empty_receipts ≡ none)
      × (find_key (is_receipts_key statement_reader) algorithm_map ≡ none))
find_receipts-absent_example =
    find_receipts-absent statement_reader algorithm_map empty_receipts
      (AttachedReceipts.malformed "receipts header is an empty array") malformed_found
