-- ===== src/Wire/Receipt/Container.antt =====
-- What `attached_receipts` tells of the receipts header.
use pask_workspace.Prelude.{
  ℕ, ◌≡◌, refl, ◌↔◌, Bool, true, false, not, List, [], ◌∷◌, ◌++◌, Option, none, some, Result, ok,
  err, ◌>>=◌, ◌>>◌, >>=-eq-ok, guard, ap, sym, ◌∙◌, ◌≢◌,
}
use pask_workspace.Wire.Error.{Error}
use pask_workspace.Wire.Cbor.{Value, Values, CborLibrary}
use pask_workspace.Wire.Cbor.Labels.{items, find_key}
use pask_workspace.Wire.Receipt.Attached.{
  AttachedReceipts, receipt_element, receipt_elements, collected, read_receipts_array, check_labels,
  overlaps, is_receipts_key, found_receipts, find_receipts,
}

-- Every receipt as a byte string.
abbrev pub byte_strings : List (List ℕ) → Values
byte_strings [] = Values.nil
byte_strings (r ∷ rs) = Values.cons (Value.bytes r) (byte_strings rs)

module _ (cbor : CborLibrary) where
  receipt_elements-byte_strings :
      (rs : List (List ℕ)) → receipt_elements cbor (items (byte_strings rs)) ≡ ok rs
  unfolding receipt_elements receipt_element items
  receipt_elements-byte_strings [] = refl
  receipt_elements-byte_strings (r ∷ rs) =
      ap (λ rest. rest >>= λ found. ok (r ∷ found)) (receipt_elements-byte_strings rs)

  -- Receipts attached as byte strings are read back as they are, in their order.
  pub read_receipts_array-byte_strings :
      (r : List ℕ) (rs : List (List ℕ))
      → read_receipts_array cbor (Value.array (byte_strings (r ∷ rs)))
        ≡ AttachedReceipts.present (r ∷ rs)
  unfolding read_receipts_array receipt_elements receipt_element
  read_receipts_array-byte_strings r rs =
      ap (λ found. collected cbor (found >>= λ rest. ok (r ∷ rest)))
        (receipt_elements-byte_strings rs)

  collected-present : (r : Result _ (List (List ℕ))) → collected cbor r ≢ AttachedReceipts.absent
  collected-present (ok receipts) e = cc
  collected-present (err reason) e = cc

  read_receipts_array-present : (v : Value) → read_receipts_array cbor v ≢ AttachedReceipts.absent
  unfolding read_receipts_array
  read_receipts_array-present (Value.array Values.nil) e = cc
  read_receipts_array-present (Value.array (Values.cons v vs)) e = collected-present _ e
  read_receipts_array-present (Value.integer n) e = cc
  read_receipts_array-present (Value.bytes b) e = cc
  read_receipts_array-present (Value.float n) e = cc
  read_receipts_array-present (Value.text t) e = cc
  read_receipts_array-present (Value.bool b) e = cc
  read_receipts_array-present Value.null e = cc
  read_receipts_array-present (Value.tag t v) e = cc
  read_receipts_array-present (Value.map es) e = cc

  found_receipts-absent_iff :
      (o : Option Value) → (found_receipts cbor o ≡ AttachedReceipts.absent) ↔ (o ≡ none)
  found_receipts-absent_iff none = (λ e. refl, λ e. refl)
  found_receipts-absent_iff (some v) = (λ e. absurd (read_receipts_array-present v e), λ e. cc)

  find_key-append_iff :
      (test : Value → Bool) (us ps : List (Value × Value))
      → (find_key test (us ++ ps) ≡ none) ↔ ((find_key test us ≡ none) × (find_key test ps ≡ none))
  find_key-append_iff test [] ps = (λ e. (refl, e), λ e. e.1)
  find_key-append_iff test ((k, v) ∷ us) ps =
      elim (test k)
        as (λ b. (elim b [ true ↦ some v | false ↦ find_key test (us ++ ps) ] ≡ none) ↔ (
          (elim b [ true ↦ some v | false ↦ find_key test us ] ≡ none)
          × (find_key test ps ≡ none))) [
            | true ↦ (λ e. absurd (cc), λ e. absurd (cc))
            | false ↦ find_key-append_iff test us ps
          ]

  guarded :
      {A : Type 0} (passed : Bool) (failure : Error) (next : Result Error A) {r : A}
      → (guard passed failure >> next) ≡ ok r
      → next ≡ ok r
  guarded true failure next h = h
  guarded false failure next h = cc

  -- Where the two header maps are in order, the receipts are absent if and only if neither map has
  -- the receipts label: a header that is there is never taken for absence, however malformed.
  pub find_receipts-absent :
      (p u : List (Value × Value)) (r : AttachedReceipts)
      → find_receipts cbor p u ≡ ok r
      → (r ≡ AttachedReceipts.absent)
        ↔ ((find_key (is_receipts_key cbor) u ≡ none) × (find_key (is_receipts_key cbor) p ≡ none))
  unfolding find_receipts
  find_receipts-absent p u r h =
      let (a, b, h1) = >>=-eq-ok (check_labels cbor [] p) _ h in
      let (c, d, h2) = >>=-eq-ok (check_labels cbor [] u) _ h1 in
      let found = found_receipts cbor (find_key (is_receipts_key cbor) (u ++ p)) in
      let same : ok found ≡ ok r = guarded (not (overlaps cbor p u)) _ (ok found) h2 in
      let equal : found ≡ r = cc in
      let lookup = found_receipts-absent_iff (find_key (is_receipts_key cbor) (u ++ p)) in
      let split = find_key-append_iff (is_receipts_key cbor) u p in
      (λ e. split.0 (lookup.0 (equal ∙ e)), λ e. sym equal ∙ lookup.1 (split.1 e))
