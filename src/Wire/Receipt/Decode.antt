-- ===== src/Wire/Receipt/Decode.antt =====
-- crates/pask-wire/src/receipt.rs: `Receipt::from_cose_sign1`, and `verify_inclusion` with it.
use pask_workspace.Prelude.{
  ℕ, ℤ, List, [], ◌∷◌, Option, none, some, String, Result, ok, err, ◌>>=◌, ◌>>◌, ok_or,
}
use pask_workspace.Wire.Error.{Error}
use pask_workspace.Wire.Cbor.{Value, Values, CborLibrary, whole}
use pask_workspace.Wire.Cbor.Labels.{items, signed, map_entry, cose_sign1_items}
use pask_workspace.Wire.Cbor.Unique.{check_unique_maps}
use pask_workspace.Wire.Merkle.{InclusionProof}
use pask_workspace.Wire.Proof.{from_wrapped_cbor}
use pask_workspace.Wire.Receipt.{Receipt, VerifiedInclusion, ReceiptLibraries, verify_decoded}

-- VDS_LABEL, VDP_LABEL and INCLUSION_PROOF_LABEL
abbrev pub vds_label : ℤ
vds_label = ℤ.pos 395

abbrev pub vdp_label : ℤ
vdp_label = ℤ.pos 396

abbrev pub inclusion_proof_label : ℤ
inclusion_proof_label = ℤ.negsuc 0

-- `map_err(Error::Receipt)`
abbrev pub as_receipt_error : Result String (Unit {0}) → Result Error (Unit {0})
as_receipt_error (ok u) = ok u
as_receipt_error (err message) = err (Error.receipt message)

abbrev pub is_map : Value → Result Error (Unit {0}) → Result Error (Unit {0})
is_map (Value.map es) otherwise = ok tt
is_map _ otherwise = otherwise

abbrev pub bytes_of : Value → String → Result Error (List ℕ)
bytes_of (Value.bytes b) message = ok b
bytes_of _ message = err (Error.receipt message)

-- The array of proofs, which is not empty.
unfoldable pub proof_list : Value → Result Error (List Value)
proof_list (Value.array Values.nil) = err (Error.receipt "inclusion proofs must not be empty")
proof_list (Value.array (Values.cons v vs)) = ok (v ∷ items vs)
proof_list _ = err (Error.receipt "inclusion proofs must be an array")

unfoldable pub receipt_payload : Value → Result Error (Option (List ℕ))
receipt_payload (Value.bytes b) = ok (some b)
receipt_payload Value.null = ok none
receipt_payload _ = err (Error.receipt "receipt payload must be bytes or null")

-- The four elements.
unfoldable pub four : List Value → Result Error (Value × Value × Value × Value)
four (a ∷ b ∷ c ∷ d ∷ []) = ok (a, b, c, d)
four _ = err (Error.receipt "receipt must carry exactly four elements")

abbrev pub signed_of : Option Value → Option ℤ
signed_of none = none
signed_of (some v) = signed v

module _ (cbor : CborLibrary) where
  -- The loop over the proofs.
  unfoldable pub decode_proofs : List Value → Result Error (List InclusionProof)
  decode_proofs [] = ok []
  decode_proofs (v ∷ vs) = do
    wrapped ← bytes_of v "each inclusion proof must be a byte string"
    proof ← from_wrapped_cbor cbor wrapped
    rest ← decode_proofs vs
    ok (proof ∷ rest)

  -- The protected header: one value with unique keys, a map.
  unfoldable pub protected_header : List ℕ → Result Error Value
  protected_header protected_raw = do
    header ←
        whole (cbor.from_reader protected_raw)
          (Error.receipt "receipt protected header is not valid CBOR")
          (Error.receipt "trailing bytes in receipt protected header")
    as_receipt_error (check_unique_maps header)
    is_map header (err (Error.receipt "receipt protected header must encode a map"))
    ok header

  -- The proofs of the `vdp` map.
  unfoldable pub vdp_proofs : Value → Result Error (List InclusionProof)
  vdp_proofs unprotected = do
    vdp ←
        ok_or (map_entry unprotected vdp_label)
          (Error.receipt "receipt unprotected header must carry vdp")
    proofs ←
        ok_or (map_entry vdp inclusion_proof_label)
          (Error.receipt "vdp map must carry an inclusion proof")
    listed ← proof_list proofs
    decode_proofs listed

  -- From the four elements.
  unfoldable pub from_elements : Value → Value → Value → Value → Result Error Receipt
  from_elements protected unprotected payload signature = do
    protected_raw ← bytes_of protected "receipt protected header must be bytes"
    signature_bytes ← bytes_of signature "receipt signature must be bytes"
    header ← protected_header protected_raw
    is_map unprotected (err (Error.receipt "receipt unprotected header must be a map"))
    vds ←
        ok_or (signed_of (map_entry header vds_label))
          (Error.receipt "receipt protected header must carry vds")
    inclusion_proofs ← vdp_proofs unprotected
    payload_bytes ← receipt_payload payload
    ok (record {
      vds = vds;
      inclusion_proofs = inclusion_proofs;
      payload = payload_bytes;
      protected_raw = protected_raw;
      signature = signature_bytes;
    })

  unfoldable pub from_cose_sign1 : List ℕ → Result Error Receipt
  from_cose_sign1 receipt = do
    value ←
        whole (cbor.from_reader receipt) (Error.receipt "receipt is not valid CBOR")
          (Error.receipt "trailing bytes after receipt")
    as_receipt_error (check_unique_maps value)
    elements ← ok_or (cose_sign1_items value) (Error.receipt "receipt must be a COSE_Sign1 array")
    (protected, unprotected, payload, signature) ← four elements
    from_elements protected unprotected payload signature

-- `verify_inclusion`
unfoldable pub verify_inclusion :
    (lib : ReceiptLibraries) → List ℕ → List ℕ → lib.Key → Result Error VerifiedInclusion
verify_inclusion lib receipt entry key = do
  decoded ← from_cose_sign1 lib.cbor receipt
  verify_decoded lib decoded entry key
