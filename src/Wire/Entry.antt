-- ===== src/Wire/Entry.antt =====
-- crates/pask-wire/src/entry.rs
pub mod Attach
use pask_workspace.Prelude.{ℕ, ◌==◌, if◌then◌else◌, List, Result, ok, err, ◌>>=◌}
use pask_workspace.Wire.Error.{Error}
use pask_workspace.Wire.Cbor.{Value, Values, Entries, CborLibrary, whole, written}
use pask_workspace.Wire.Merkle.{leaf_hash}

abbrev pub cose_sign1_tag : ℕ
cose_sign1_tag = 18

-- The match that unwraps tag 18.
unfoldable pub unwrap_tag : Value → Result Error Value
unwrap_tag (Value.tag t inner) =
    if t == cose_sign1_tag
    then ok inner
    else err (Error.cose "unsupported tag wrapper; only tag 18 is accepted")
unwrap_tag (Value.array items) = ok (Value.array items)
unwrap_tag _ = err (Error.cose "Transparent Statement must be a COSE_Sign1 array or tag-18 wrapper")

unfoldable pub statement_items : Value → Result Error Values
statement_items (Value.array items) = ok items
statement_items _ = err (Error.cose "Transparent Statement must be a COSE_Sign1 array")

-- The signature, the last of the four to be looked at.
unfoldable pub entry_signature : List ℕ → List ℕ → Value → Result Error Value
entry_signature protected payload (Value.bytes signature) = ok (
    Value.array (
      Values.cons (Value.bytes protected) (
        Values.cons (Value.map Entries.end)
          (Values.cons (Value.bytes payload) (Values.cons (Value.bytes signature) Values.nil)))))
entry_signature protected payload _ = err (Error.cose "signature must be a byte string")

unfoldable pub entry_payload : List ℕ → Value → Value → Result Error Value
entry_payload protected (Value.bytes payload) signature =
    entry_signature protected payload signature
entry_payload protected Value.null signature = err (
    Error.cose "detached payload (null) is not permitted; payload must be present as a byte string")
entry_payload protected _ signature = err (Error.cose "payload must be a byte string")

unfoldable pub entry_unprotected : List ℕ → Value → Value → Value → Result Error Value
entry_unprotected protected (Value.map headers) payload signature =
    entry_payload protected payload signature
entry_unprotected protected _ payload signature =
    err (Error.cose "unprotected header must be a map")

unfoldable pub entry_protected : Value → Value → Value → Value → Result Error Value
entry_protected (Value.bytes protected) unprotected payload signature =
    entry_unprotected protected unprotected payload signature
entry_protected _ unprotected payload signature =
    err (Error.cose "protected header must be a byte string")

-- `[P, {}, M, S]` from the four elements.
unfoldable pub candidate : Values → Result Error Value
candidate (Values.cons p (Values.cons u (Values.cons m (Values.cons s Values.nil)))) =
    entry_protected p u m s
candidate _ = err (Error.cose "COSE_Sign1 must have exactly 4 elements")

module _ (cbor : CborLibrary) where
  unfoldable pub derive_candidate_entry : List ℕ → Result Error (List ℕ)
  derive_candidate_entry statement = do
    value ←
        whole (cbor.from_reader statement) (Error.cose "failed to parse Transparent Statement CBOR")
          (Error.cose "trailing bytes after Transparent Statement")
    array_value ← unwrap_tag value
    items ← statement_items array_value
    entry ← candidate items
    written (cbor.into_writer entry) (Error.cose "failed to serialize candidate entry")

-- `candidate_leaf_hash`
pub candidate_leaf_hash : (List ℕ → List ℕ) → List ℕ → List ℕ
candidate_leaf_hash sha256 candidate_entry = leaf_hash sha256 candidate_entry
