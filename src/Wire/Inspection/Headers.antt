-- ===== src/Wire/Inspection/Headers.antt =====
-- crates/pask-wire/src/receipt_inspection.rs: the tests of `inspect` that neither scan nor write
-- the report. The CBOR reader is a parameter.
use pask_workspace.Prelude.{
  ℕ, ℤ, leb, ◌==◌, ◌&&◌, ◌||◌, not, if◌then◌else◌, Bool, false, List, [], ◌∷◌, ◌++◌, Option, none,
  some, String, length, is_empty, is_some, is_err, int_eq, Result, ok, err, ok_or, guard, ◌>>=◌,
  ◌>>◌,
}
use pask_workspace.Wire.Cbor.{Value, Values, CborLibrary}
use pask_workspace.Wire.Cbor.Labels.{items, pairs, integer, is_some_int, get, is_label}
use pask_workspace.Wire.Cbor.Equal.{value_eq}
use pask_workspace.Wire.Cbor.Unique.{any_value, check_unique_maps}
use pask_workspace.Wire.Inspection.{
  Status, Finding, Limits, Problem, structure_problem, policy_problem,
}
use pask_workspace.Wire.Inspection.Claims.{Map, labels, has_x509, x509_shape}
use pask_workspace.Wire.Inspection.Report.{new_finding, passed_finding}

-- `decode`, from what the reader gives.
abbrev pub decoded : Option (Value × List ℕ) → Result Problem Value
decoded none = err (structure_problem "invalid_cbor")
decoded (some (value, [])) = ok value
decoded (some (value, b ∷ rest)) = err (structure_problem "trailing_cbor")

abbrev pub as_structure : Result String (Unit {0}) → Result Problem (Unit {0})
as_structure (ok u) = ok u
as_structure (err code) = err (structure_problem code)

-- `decode`, then `check_unique_maps`.
unfoldable pub parsed : CborLibrary → List ℕ → Result Problem Value
parsed cbor bytes = do
  value ← decoded (cbor.from_reader bytes)
  as_structure (check_unique_maps value)
  ok value

-- The envelope inside tag 18.
unfoldable pub tagged : Value → Result Problem Value
tagged (Value.tag t inner) =
    if t == 18 then ok inner else err (structure_problem "wrong_receipt_tag")
tagged _ = err (structure_problem "missing_receipt_tag")

unfoldable pub elements : Value → Result Problem (Value × Value × Value × Value)
elements (Value.array (Values.cons a (Values.cons b (Values.cons c (Values.cons d Values.nil))))) =
    ok (a, b, c, d)
elements _ = err (structure_problem "element_count")

abbrev pub bytes_or : String → Value → Result Problem (List ℕ)
bytes_or code (Value.bytes b) = ok b
bytes_or code _ = err (structure_problem code)

abbrev pub map_or : String → Value → Result Problem Map
map_or code (Value.map es) = ok (pairs es)
map_or code _ = err (structure_problem code)

abbrev pub payload_or_null : Value → Result Problem (Option (List ℕ))
payload_or_null (Value.bytes b) = ok (some b)
payload_or_null Value.null = ok none
payload_or_null _ = err (structure_problem "payload_type")

-- The protected bytes, the unprotected map, the payload if there is one, and the signature.
unfoldable pub envelope_parts : Value → Result Problem (List ℕ × Map × Option (List ℕ) × List ℕ)
envelope_parts value = do
  inner ← tagged value
  (protected, unprotected, payload, signature) ← elements inner
  p ← bytes_or "protected_type" protected
  u ← map_or "unprotected_type" unprotected
  m ← payload_or_null payload
  s ← bytes_or "signature_type" signature
  ok (p, u, m, s)

abbrev pub has_key : Value → Map → Bool
has_key key [] = false
has_key key ((k, v) ∷ es) = value_eq k key || has_key key es

-- `overlaps`
unfoldable pub overlap : Map → Map → Bool
overlap [] u = false
overlap ((key, v) ∷ p) u = has_key key u || overlap p u

-- The unprotected entries whose keys the protected map does not have.
unfoldable pub not_overridden : Map → Map → Map
not_overridden p [] = []
not_overridden p ((key, v) ∷ u) =
    let rest = not_overridden p u in if has_key key p then rest else (key, v) ∷ rest

-- The effective headers.
abbrev pub effective : Map → Map → Map
effective p u = p ++ not_overridden p u

-- The labels of the two maps, and where labels 15, 2 and 396 may stand.
unfoldable pub header_positions : Map → Map → Result Problem (Unit {0})
header_positions p u = do
  labels p
  labels u
  guard (not (is_some (get p (ℤ.pos 15)) && is_some (get u (ℤ.pos 15))))
      (structure_problem "label15_single_occurrence")
  guard (not (is_some (get u (ℤ.pos 2)))) (structure_problem "crit_location")
  guard (not (is_some (get p (ℤ.pos 396)))) (structure_problem "vdp_location")

-- UNDERSTOOD_CRITICAL_LABELS
abbrev pub understood : Option ℤ → Bool
understood label =
    is_some_int label (ℤ.pos 1)
    || is_some_int label (ℤ.pos 2)
    || is_some_int label (ℤ.pos 4)
    || is_some_int label (ℤ.pos 15)
    || is_some_int label (ℤ.pos 395)

-- One round of the loop over the critical labels; `seen` is the labels before, latest first.
unfoldable pub check_critical : Map → List Value → Value → Result Problem (Unit {0})
check_critical p seen label = do
  guard (is_label label) (structure_problem "crit_label_type")
  guard (not (any_value (λ other. value_eq other label) seen))
      (structure_problem "crit_duplicate_label")
  guard (not (is_some_int (integer label) (ℤ.pos 2))) (structure_problem "crit_self_reference")
  guard (has_key label p) (structure_problem "crit_reference_absent")

-- The loop; the result says whether a label is not understood.
unfoldable pub critical_labels : Map → List Value → List Value → Result Problem Bool
critical_labels p seen [] = ok false
critical_labels p seen (label ∷ crit) = do
  check_critical p seen label
  unknown ← critical_labels p (label ∷ seen) crit
  ok (not (understood (integer label)) || unknown)

-- `critical_unknown`
unfoldable pub critical_unknown : Map → Option Value → Result Problem Bool
critical_unknown p none = ok false
critical_unknown p (some (Value.array Values.nil)) = err (structure_problem "crit_empty")
critical_unknown p (some (Value.array (Values.cons v vs))) = critical_labels p [] (v ∷ items vs)
critical_unknown p (some _) = err (structure_problem "crit_type")

-- The map of proofs.
unfoldable pub vdp_map : Map → Result Problem Map
vdp_map u = do
  value ← ok_or (get u (ℤ.pos 396)) (structure_problem "vdp_location")
  vdp ← map_or "vdp_map_type" value
  labels vdp
  ok vdp

abbrev pub and_integer : Option Value → Option ℤ
and_integer none = none
and_integer (some v) = integer v

abbrev pub proof_label : ℤ
proof_label = ℤ.negsuc 0

-- The inclusion proofs of a receipt of structure 1.
unfoldable pub listed_proofs : Limits → Map → Option Value → Result Problem (List Value)
listed_proofs limits vdp none = do
  guard (not (is_empty vdp)) (structure_problem "missing_inclusion")
  ok []
listed_proofs limits vdp (some (Value.array Values.nil)) =
    err (structure_problem "empty_inclusion_array")
listed_proofs limits vdp (some (Value.array (Values.cons v vs))) = do
  guard (leb (length (v ∷ items vs)) limits.max_proofs_per_receipt) (policy_problem "proof_limit")
  ok (v ∷ items vs)
listed_proofs limits vdp (some _) = err (structure_problem "inclusion_array_type")

-- A key that is not the label of inclusion proofs.
unfoldable pub other_proofs : Map → Bool
other_proofs [] = false
other_proofs ((key, v) ∷ vdp) = not (is_some_int (integer key) proof_label) || other_proofs vdp

abbrev unsupported : String → Option Finding
unsupported code = some (
    new_finding Status.unsupported code
      "Not implemented by the initial Ed25519/RFC9162 policy; no crypto or trust finding follows.")

abbrev reserved_vds : Finding
reserved_vds =
    new_finding Status.failed "reserved_vds"
      "VDS zero is reserved, not an unsupported registration."

-- The X.509 headers: an unsupported finding only where their shape is right.
unfoldable pub x509_support : Limits → Map → Map → Bool → Option Finding
x509_support limits p u raw_x5t_invalid =
    if not (has_x509 p)
    then some passed_finding
    else if raw_x5t_invalid || is_err (x509_shape limits p u)
    then none
    else unsupported "x509_not_implemented"

-- The support finding for the algorithm and structure read, or none where it is left as it is.
unfoldable pub support_for :
    Limits → Map → Map → Bool → Bool → Bool → Option ℤ → Option ℤ → Option Finding
support_for limits p u raw_x5t_invalid unknown_label unknown_proof none vds = none
support_for limits p u raw_x5t_invalid unknown_label unknown_proof (some alg) none = none
support_for limits p u raw_x5t_invalid unknown_label unknown_proof (some alg) (some vds) =
    if int_eq vds (ℤ.pos 0)
    then some reserved_vds
    else if int_eq vds (ℤ.pos 2)
    then unsupported "ccf_profile_not_implemented"
    else if not (int_eq vds (ℤ.pos 1))
    then unsupported "unknown_vds_registry_review"
    else if not (int_eq alg (ℤ.negsuc 7))
    then unsupported "ts_algorithm"
    else if unknown_label
    then unsupported "critical_semantics"
    else if unknown_proof
    then unsupported "proof_type_registry_review"
    else x509_support limits p u raw_x5t_invalid
