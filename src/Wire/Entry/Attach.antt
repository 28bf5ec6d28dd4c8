-- ===== src/Wire/Entry/Attach.antt =====
-- Attached receipts stand in the unprotected header and do not change the candidate entry.
use pask_workspace.Prelude.{ℕ, ◌≡◌, refl, ◌⊎◌, inl, inr, List, [], some, ◌∙◌, sym}
use pask_workspace.Wire.Cbor.{Value, Values, Entries, CborLibrary, written}
use pask_workspace.Wire.Error.{Error}
use pask_workspace.Wire.Entry.{
  unwrap_tag, statement_items, entry_signature, entry_payload, entry_unprotected, entry_protected,
  candidate, derive_candidate_entry,
}

-- A COSE_Sign1 structure.
abbrev pub sign1 : List ℕ → Entries → List ℕ → List ℕ → Value
sign1 protected headers payload signature = Value.array (
    Values.cons (Value.bytes protected) (
      Values.cons (Value.map headers)
        (Values.cons (Value.bytes payload) (Values.cons (Value.bytes signature) Values.nil))))

-- The structure, with or without tag 18.
abbrev pub IsStatement : Value → List ℕ → Entries → List ℕ → List ℕ → Type 0
IsStatement v protected headers payload signature =
    (v ≡ sign1 protected headers payload signature)
    ⊎ (v ≡ Value.tag 18 (sign1 protected headers payload signature))

module _ (cbor : CborLibrary) where
  derive-sign1 :
      (statement : List ℕ) (v : Value) (p : List ℕ) (u : Entries) (m s : List ℕ)
      → cbor.from_reader statement ≡ some (v, [])
      → IsStatement v p u m s
      → derive_candidate_entry cbor statement
        ≡ written
            (cbor.into_writer (sign1 p Entries.end m s))
            (Error.cose "failed to serialize candidate entry")
  unfolding derive_candidate_entry unwrap_tag statement_items entry_signature entry_payload
      entry_unprotected entry_protected candidate
  derive-sign1 statement v p u m s e (inl h) = rw (e, h) refl
  derive-sign1 statement v p u m s e (inr h) = rw (e, h) refl

  -- Two statements of one protected header, payload and signature have one candidate entry,
  -- whatever their unprotected headers hold and whether or not they carry tag 18; and that entry
  -- is the statement with an empty unprotected header.
  pub derive_candidate_entry_attach :
      (before after : List ℕ) (v w : Value) (p m s : List ℕ) (u u' : Entries)
      → cbor.from_reader before ≡ some (v, [])
      → cbor.from_reader after ≡ some (w, [])
      → IsStatement v p u m s
      → IsStatement w p u' m s
      → (derive_candidate_entry cbor before ≡ derive_candidate_entry cbor after)
        × (derive_candidate_entry cbor after
            ≡ written
                (cbor.into_writer (sign1 p Entries.end m s))
                (Error.cose "failed to serialize candidate entry"))
  derive_candidate_entry_attach before after v w p m s u u' e f h k = (
    derive-sign1 before v p u m s e h ∙ sym (derive-sign1 after w p u' m s f k),
    derive-sign1 after w p u' m s f k,
  )
