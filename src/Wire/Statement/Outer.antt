-- ===== src/Wire/Statement/Outer.antt =====
-- crates/pask-wire/src/transparent_statement.rs: `inspect_outer` and
-- `inspect_transparent_statement`. The CBOR reader and the parser of URIs are parameters.
use pask_workspace.Prelude.{
  ℕ, ℤ, ◌/◌, ◌==◌, leb, ◌&&◌, ◌||◌, not, if◌then◌else◌, is_empty, is_some, Bool, false, List, [],
  ◌∷◌, Option, none, some, String, Text, length, int_eq, Result, ok, err, ◌>>=◌, ◌>>◌, ok_or, guard,
}
use pask_workspace.Wire.Cbor.{Value, Values, CborLibrary}
use pask_workspace.Wire.Cbor.Labels.{items, pairs, integer, is_some_int, get, is_label}
use pask_workspace.Wire.Cbor.Equal.{value_eq}
use pask_workspace.Wire.Cbor.Unique.{any_value, check_unique_maps}
use pask_workspace.Wire.Inspection.{Status, Finding, Limits, default_limits}
use pask_workspace.Wire.Inspection.Claims.{Map, all_labels, has_colon}
use pask_workspace.Wire.Inspection.Headers.{and_integer, has_key, overlap, effective}
use pask_workspace.Wire.Scan.Machine.{Scan, done, stop}
use pask_workspace.Wire.Scan.Roles.{Role}
use pask_workspace.Wire.Scan.Items.{scan}
use pask_workspace.Wire.Statement.{
  statement_finding, statement_passed, statement_failed, statement_skipped,
  TransparentStatementPolicy, ReceiptContainerState, OuterStatementReport, bounded_text,
  outer_limits_valid,
}

-- What a scan leaves of its budget.
abbrev pub scanned : Scan (Unit {0}) → String → Result String (ℕ × Bool)
scanned (done u r) code = ok (r.items, r.unprotected_x5t_invalid)
scanned (stop fault n) code = err code

-- `decode`
abbrev pub whole_value : Option (Value × List ℕ) → Option Value
whole_value none = none
whole_value (some (value, [])) = some value
whole_value (some (value, b ∷ rest)) = none

-- The role of the statement, by its first byte.
abbrev pub outer_role : List ℕ → Role
outer_role [] = Role.sign1
outer_role (b ∷ bs) = if b / 32 == 6 then Role.envelope else Role.sign1

abbrev pub untagged : Value → Value
untagged (Value.tag t inner) = if t == 18 then inner else Value.tag t inner
untagged value = value

-- The parts of the statement that the report is made of.
pub record Parts : Type 0 where
  pub protected_bytes : List ℕ
  pub payload : List ℕ
  pub signature : List ℕ
  pub protected : Map
  pub unprotected : Map

unfoldable pub outer_elements : Value → Result String (List ℕ × Map × List ℕ × List ℕ)
outer_elements
      (Value.array (
        Values.cons (Value.bytes p) (
          Values.cons
            (Value.map u)
            (Values.cons (Value.bytes m) (Values.cons (Value.bytes s) Values.nil))))) =
    ok (p, pairs u, m, s)
outer_elements _ = err "outer_shape"

abbrev pub protected_or : Value → Result String Map
protected_or (Value.map es) = ok (pairs es)
protected_or _ = err "protected_not_map"

abbrev pub outer_limits : TransparentStatementPolicy → Limits
outer_limits policy = record default_limits { max_receipt_bytes = policy.max_statement_bytes }

-- The tests before the report is written, from the byte limit on.
unfoldable pub opened : CborLibrary → TransparentStatementPolicy → List ℕ → Result String Parts
opened cbor policy bytes = do
  guard (leb (length bytes) policy.max_statement_bytes) "outer_byte_limit"
  (count, x5t) ←
      scanned (scan bytes (outer_limits policy) 0 false 0 (outer_role bytes) "outer_trailing")
        "outer_cbor_preflight"
  value ← ok_or (whole_value (cbor.from_reader bytes)) "outer_cbor"
  check_unique_maps value
  (p_bytes, u, m, s) ← outer_elements (untagged value)
  rest ←
      scanned
        (scan p_bytes (outer_limits policy) count x5t 2 Role.protected_map "protected_trailing")
        "protected_cbor_preflight"
  protected ← ok_or (whole_value (cbor.from_reader p_bytes)) "protected_cbor"
  check_unique_maps protected
  p ← protected_or protected
  guard (all_labels p && all_labels u) "header_label_type"
  guard (not (is_some (get p (ℤ.pos 15)) && is_some (get u (ℤ.pos 15)))) "label15_single_occurrence"
  guard (not (is_some (get u (ℤ.pos 2)))) "crit_location"
  ok (record {
    protected_bytes = p_bytes;
    payload = m;
    signature = s;
    protected = p;
    unprotected = u;
  })

abbrev pub text_of : Option Value → Option Text
text_of (some (Value.text t)) = some t
text_of _ = none

-- The support finding of the algorithm.
abbrev pub algorithm_support : Option ℤ → Finding
algorithm_support none = statement_failed "protected_algorithm_required"
algorithm_support (some n) =
    if int_eq n (ℤ.negsuc 7)
    then statement_passed "ed25519_issuer_supported"
    else statement_finding Status.unsupported "issuer_algorithm"

-- `matches!(integer(label), Some(1 | 15 | 394))`
abbrev pub outer_understood : Option ℤ → Bool
outer_understood label =
    is_some_int label (ℤ.pos 1) || is_some_int label (ℤ.pos 15) || is_some_int label (ℤ.pos 394)

abbrev pub label_support : Option ℤ → Finding → Finding
label_support label support =
    if outer_understood label
    then support
    else statement_finding Status.unsupported "outer_critical_semantics"

-- The loop over the critical labels, with the support finding; `seen` is the labels before,
-- latest first.
unfoldable pub outer_labels :
    Map → List Value → List Value → Finding → Result String (Unit {0}) × Finding
outer_labels p seen [] support = (ok tt, support)
outer_labels p seen (label ∷ rest) support =
    let later = outer_labels p (label ∷ seen) rest (label_support (integer label) support) in
    if not (is_label label)
      || any_value (λ other. value_eq other label) seen
      || is_some_int (integer label) (ℤ.pos 2)
    then (err "crit_label", support)
    else if not (has_key label p)
    then (err "crit_reference_absent", support)
    else later

unfoldable pub outer_critical : Map → Option Value → Finding → Result String (Unit {0}) × Finding
outer_critical p none support = (ok tt, support)
outer_critical p (some (Value.array Values.nil)) support = (err "crit_empty", support)
outer_critical p (some (Value.array (Values.cons v vs))) support =
    outer_labels p [] (v ∷ items vs) support
outer_critical p (some _) support = (err "crit_type", support)

-- The report with the bytes, the headers and the algorithm.
unfoldable pub with_parts : Parts → OuterStatementReport → OuterStatementReport
with_parts parts r =
    let algorithm = and_integer (get parts.protected (ℤ.pos 1)) in
    record r {
      selected_policy =
          if r.policy.strict_cross_map && overlap parts.protected parts.unprotected
          then statement_failed "cross_map_overlap"
          else r.selected_policy;
      protected_bytes = some parts.protected_bytes;
      payload_bytes = some parts.payload;
      signature_bytes = some parts.signature;
      effective_headers = effective parts.protected parts.unprotected;
      algorithm = algorithm;
      protected_content_type = text_of (get parts.protected (ℤ.pos 3));
      support = algorithm_support algorithm;
    }

abbrev pub claims_in : Option Value → Option (Text × Text)
claims_in (some (Value.map es)) = elim (text_of (get (pairs es) (ℤ.pos 1))) [
  | none ↦ none
  | some iss ↦ elim (text_of (get (pairs es) (ℤ.pos 2))) [
    | none ↦ none
    | some sub ↦ some (iss, sub)
  ]
]
claims_in _ = none

-- The byte strings of an array, if it holds nothing else.
unfoldable pub byte_elements : Values → Option (List (List ℕ))
byte_elements Values.nil = some []
byte_elements (Values.cons (Value.bytes b) vs) = elim (byte_elements vs) [
  | none ↦ none
  | some rest ↦ some (b ∷ rest)
]
byte_elements (Values.cons _ vs) = none

module _ (cbor : CborLibrary) (uri : Text → Bool) where
  abbrev pub string_or_uri : Text → Bool
  string_or_uri s = bounded_text s && (not (has_colon s) || uri s)

  abbrev pub set_outer_claims : Option (Text × Text) → OuterStatementReport → OuterStatementReport
  set_outer_claims none r = r
  set_outer_claims (some (iss, sub)) r =
      if string_or_uri iss && string_or_uri sub
      then record r {
        claims = some (record { issuer = iss; subject = sub; authenticated = false });
        required_claims = statement_passed "text_claim_types_not_semantic_binding";
      }
      else r

  -- The claims, and that an algorithm is there.
  unfoldable pub with_claims : Map → OuterStatementReport → OuterStatementReport
  with_claims p r =
      let read =
        set_outer_claims (claims_in (get p (ℤ.pos 15)))
          (record r { required_claims = statement_failed "protected_text_claims_required" }) in
      record read {
        required_claims =
            if is_some read.algorithm
            then read.required_claims
            else statement_failed "protected_algorithm_required";
      }

  abbrev pub malformed_container :
      OuterStatementReport → Result String (Unit {0}) × OuterStatementReport
  malformed_container r = (
    err "receipt_container_malformed_or_limit",
    record r { container = ReceiptContainerState.malformed_receipts },
  )

  abbrev pub examined : OuterStatementReport → Result String (Unit {0}) × OuterStatementReport
  examined r = (ok tt, record r { structure = statement_passed "outer_structure_inspected" })

  -- The receipts of an array of byte strings, within the limit.
  abbrev pub attach :
      Option (List (List ℕ))
      → OuterStatementReport
      → Result String (Unit {0}) × OuterStatementReport
  attach none r = malformed_container r
  attach (some receipts) r =
      if not (is_empty receipts) && leb (length receipts) r.policy.max_receipts
      then examined (record r { container = ReceiptContainerState.attached; receipts = receipts })
      else malformed_container r

  -- The match on label 394.
  unfoldable pub with_container :
      Option Value → OuterStatementReport → Result String (Unit {0}) × OuterStatementReport
  with_container none r = examined (record r { container = ReceiptContainerState.no_receipts })
  with_container (some (Value.array vs)) r = attach (byte_elements vs) r
  with_container (some _) r = malformed_container r

  -- From the critical labels on.
  unfoldable pub after_critical :
      Map
      → Result String (Unit {0}) × Finding
      → OuterStatementReport
      → Result String (Unit {0}) × OuterStatementReport
  after_critical p (err code, support) r = (err code, record r { support = support })
  after_critical p (ok u, support) r =
      let claimed = with_claims p (record r { support = support }) in
      with_container (get claimed.effective_headers (ℤ.pos 394)) claimed

  unfoldable pub examine :
      Result String Parts → OuterStatementReport → Result String (Unit {0}) × OuterStatementReport
  examine (err code) r = (err code, r)
  examine (ok parts) r =
      let known = with_parts parts r in
      after_critical parts.protected
        (outer_critical parts.protected (get parts.protected (ℤ.pos 2)) known.support) known

  unfoldable pub inspect_outer :
      OuterStatementReport → Result String (Unit {0}) × OuterStatementReport
  inspect_outer r =
      if not (outer_limits_valid r.policy)
      then (
        err "outer_policy_limit",
        record r { selected_policy = statement_failed "invalid_outer_limits" },
      )
      else examine (opened cbor r.policy r.encoded_statement) r

  unfoldable pub initial_outer : List ℕ → TransparentStatementPolicy → OuterStatementReport
  initial_outer bytes policy = record {
    encoded_statement = bytes;
    policy = policy;
    protected_bytes = none;
    payload_bytes = none;
    signature_bytes = none;
    effective_headers = [];
    claims = none;
    algorithm = none;
    protected_content_type = none;
    structure = statement_skipped;
    required_claims = statement_skipped;
    support = statement_skipped;
    selected_policy = statement_passed "bounded_outer_policy";
    container = ReceiptContainerState.not_examined;
    receipts = [];
  }

  abbrev pub settled : Result String (Unit {0}) × OuterStatementReport → OuterStatementReport
  settled (ok u, r) = r
  settled (err code, r) = record r { structure = statement_failed code }

  unfoldable pub inspect_transparent_statement :
      List ℕ → TransparentStatementPolicy → OuterStatementReport
  inspect_transparent_statement bytes policy = settled (inspect_outer (initial_outer bytes policy))
