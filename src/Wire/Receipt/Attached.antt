-- ===== src/Wire/Receipt/Attached.antt =====
-- crates/pask-wire/src/receipt.rs: `attached_receipts` and `read_receipts_array`.
use pask_workspace.Prelude.{
  ℕ, ℤ, ◌==◌, ◌||◌, not, if◌then◌else◌, Bool, true, false, List, [], ◌∷◌, ◌++◌, Option, none, some,
  String, Result, ok, err, ◌>>=◌, ◌>>◌, ok_or, guard,
}
use pask_workspace.Wire.Error.{Error}
use pask_workspace.Wire.Cbor.{Value, Values, Entries, CborLibrary, whole}
use pask_workspace.Wire.Cbor.Labels.{
  items, pairs, signed, is_some_int, find_key, cose_sign1_items, is_label,
}
use pask_workspace.Wire.Cbor.Equal.{value_eq}
use pask_workspace.Wire.Cbor.Unique.{any_value}

-- RECEIPTS_LABEL
abbrev pub receipts_label : ℤ
receipts_label = ℤ.pos 394

pub data AttachedReceipts : Type 0 where
  absent : AttachedReceipts
  malformed : String → AttachedReceipts
  present : List (List ℕ) → AttachedReceipts

-- `as_slice`
pub as_slice : AttachedReceipts → List (List ℕ)
as_slice (AttachedReceipts.present receipts) = receipts
as_slice _ = []

-- A COSE_Sign1 of the old container form, its payload there or null.
unfoldable pub is_container : Option (List Value) → Bool
is_container (some (Value.bytes p ∷ Value.map u ∷ Value.bytes m ∷ Value.bytes s ∷ [])) = true
is_container (some (Value.bytes p ∷ Value.map u ∷ Value.null ∷ Value.bytes s ∷ [])) = true
is_container _ = false

module _ (cbor : CborLibrary) where
  unfoldable pub reencoded : Option (List ℕ) → Result String (List ℕ)
  reencoded none = err "a receipts element could not be re-encoded"
  reencoded (some buf) = ok buf

  unfoldable pub legacy_element : Value → Result String (List ℕ)
  legacy_element item =
      if not (is_container (cose_sign1_items item))
      then err "a legacy receipts element is not a COSE_Sign1 container"
      else reencoded (cbor.into_writer item)

  -- The match on one element.
  unfoldable pub receipt_element : Value → Result String (List ℕ)
  receipt_element (Value.bytes b) = ok b
  receipt_element (Value.array vs) = legacy_element (Value.array vs)
  receipt_element (Value.tag t inner) =
      if t == 18
      then legacy_element (Value.tag t inner)
      else err "a receipts element is not a byte string, array, or tag-18 value"
  receipt_element _ = err "a receipts element is not a byte string, array, or tag-18 value"

  unfoldable pub receipt_elements : List Value → Result String (List (List ℕ))
  receipt_elements [] = ok []
  receipt_elements (v ∷ vs) = do
    encoded ← receipt_element v
    rest ← receipt_elements vs
    ok (encoded ∷ rest)

  abbrev pub collected : Result String (List (List ℕ)) → AttachedReceipts
  collected (ok receipts) = AttachedReceipts.present receipts
  collected (err reason) = AttachedReceipts.malformed reason

  unfoldable pub read_receipts_array : Value → AttachedReceipts
  read_receipts_array (Value.array Values.nil) =
      AttachedReceipts.malformed "receipts header is an empty array"
  read_receipts_array (Value.array (Values.cons v vs)) = collected (receipt_elements (v ∷ items vs))
  read_receipts_array _ = AttachedReceipts.malformed "receipts header is not an array"

  -- The labels of one map; the first argument is the labels before, latest first.
  unfoldable pub check_labels : List Value → List (Value × Value) → Result Error (Unit {0})
  check_labels seen [] = ok tt
  check_labels seen ((key, v) ∷ map) = do
    guard (is_label key) (Error.cose "COSE header labels must be integers or text")
    guard (not (any_value (value_eq key) seen)) (Error.cose "duplicate COSE header label")
    check_labels (key ∷ seen) map

  abbrev pub has_key : Value → List (Value × Value) → Bool
  has_key key [] = false
  has_key key ((other, v) ∷ map) = value_eq key other || has_key key map

  -- A key of the first map stands in the second.
  abbrev pub overlaps : List (Value × Value) → List (Value × Value) → Bool
  overlaps [] map = false
  overlaps ((key, v) ∷ es) map = has_key key map || overlaps es map

  abbrev pub is_receipts_key : Value → Bool
  is_receipts_key key = is_some_int (signed key) receipts_label

  abbrev pub found_receipts : Option Value → AttachedReceipts
  found_receipts none = AttachedReceipts.absent
  found_receipts (some value) = read_receipts_array value

  -- From the two maps.
  unfoldable pub find_receipts :
      List (Value × Value) → List (Value × Value) → Result Error AttachedReceipts
  find_receipts protected unprotected = do
    check_labels [] protected
    check_labels [] unprotected
    guard (not (overlaps protected unprotected))
        (Error.cose "header label occurs in both protected and unprotected maps")
    ok (found_receipts (find_key is_receipts_key (unprotected ++ protected)))

  -- The protected bytes and the unprotected map of the four elements.
  unfoldable pub statement_headers : List Value → Result Error (List ℕ × List (Value × Value))
  statement_headers (Value.bytes p ∷ Value.map u ∷ Value.bytes m ∷ Value.bytes s ∷ []) =
      ok (p, pairs u)
  statement_headers _ = err (
      Error.cose
        "COSE_Sign1 must carry protected bytes, unprotected map, payload bytes, signature bytes")

  unfoldable pub protected_value : List ℕ → Result Error Value
  protected_value [] = ok (Value.map Entries.end)
  protected_value (b ∷ bs) =
      whole (cbor.from_reader (b ∷ bs)) (Error.cose "protected header is not valid CBOR")
        (Error.cose "trailing bytes in protected header")

  unfoldable pub map_of : Value → Result Error (List (Value × Value))
  map_of (Value.map es) = ok (pairs es)
  map_of _ = err (Error.cose "protected header must encode a map")

  unfoldable pub attached_receipts : List ℕ → Result Error AttachedReceipts
  attached_receipts statement = do
    value ←
        whole (cbor.from_reader statement) (Error.cose "failed to parse COSE_Sign1 CBOR")
          (Error.cose "trailing bytes after COSE_Sign1")
    elements ← ok_or (cose_sign1_items value) (Error.cose "COSE_Sign1 must be an array")
    (protected_bytes, unprotected) ← statement_headers elements
    header ← protected_value protected_bytes
    protected ← map_of header
    find_receipts protected unprotected
