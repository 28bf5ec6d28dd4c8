-- ===== src/Wire/Inspection/Claims.antt =====
-- crates/pask-wire/src/receipt_inspection.rs: `x509_shape`, `inspect_claims` and `inspect_proof`.
-- The parser of URIs, of the crate fluent-uri, is a parameter.
use pask_workspace.Prelude.{
  ℕ, ℤ, ltb, leb, ◌==◌, ◌&&◌, ◌||◌, not, if◌then◌else◌, Bool, true, false, List, [], ◌∷◌, Option,
  none, some, Text, length, is_empty, is_some, Result, ok, err, ◌>>=◌, ◌>>◌, ok_or, guard,
}
use pask_workspace.Wire.Cbor.{Value, Values, unsigned}
use pask_workspace.Wire.Cbor.Labels.{items, pairs, integer, get, is_label}
use pask_workspace.Wire.Inspection.{
  Limits, Problem, structure_problem, policy_problem, claims_problem,
}
use pask_workspace.Wire.Scan.Utf8.{char_count}

-- A header or claim map.
abbrev pub Map : Type 0
Map = List (Value × Value)

-- UnauthenticatedReceiptClaims
pub record Claims : Type 0 where
  pub issuer : Text
  pub subject : Text
  pub authenticated : Bool

abbrev pub or_else : {A : Type 0} → Option A → Option A → Option A
or_else (some a) other = some a
or_else none other = other

abbrev pub all_labels : Map → Bool
all_labels [] = true
all_labels ((k, v) ∷ es) = is_label k && all_labels es

-- `labels`
unfoldable pub labels : Map → Result Problem (Unit {0})
labels es = guard (all_labels es) (structure_problem "header_label_type")

-- `text.chars().count()`; a `String` is always valid UTF-8.
abbrev pub characters : Text → ℕ
characters t = elim (char_count t) [ some n ↦ n | none ↦ 0 ]

abbrev pub has_colon : Text → Bool
has_colon [] = false
has_colon (c ∷ cs) = c == 58 || has_colon cs

-- `x5t`: an identifier and a hash.
unfoldable pub x5t_fits : Value → Bool
x5t_fits (Value.array (Values.cons (Value.integer n) (Values.cons (Value.bytes b) Values.nil))) =
    true
x5t_fits (Value.array (Values.cons (Value.text t) (Values.cons (Value.bytes b) Values.nil))) = true
x5t_fits _ = false

abbrev pub fits_if_present : (Value → Bool) → Option Value → Bool
fits_if_present test none = true
fits_if_present test (some v) = test v

-- The certificates of a chain: one byte string, or an array of two at least.
unfoldable pub certificates : Value → Result Problem (List Value)
certificates (Value.bytes b) = ok (Value.bytes b ∷ [])
certificates (Value.array (Values.cons a (Values.cons b rest))) = ok (a ∷ b ∷ items rest)
certificates _ = err (claims_problem "x5chain_shape")

unfoldable pub check_certificates : ℕ → List Value → Result Problem (Unit {0})
check_certificates max_bytes [] = ok tt
check_certificates max_bytes (Value.bytes cert ∷ certs) = do
  guard (leb (length cert) max_bytes) (policy_problem "certificate_byte_limit")
  check_certificates max_bytes certs
check_certificates max_bytes (_ ∷ certs) = err (claims_problem "x5chain_shape")

module _ (limits : Limits) where
  unfoldable pub check_chain : Option Value → Result Problem (Unit {0})
  check_chain none = ok tt
  check_chain (some chain) = do
    certs ← certificates chain
    guard (leb (length certs) limits.max_certificate_chain_length)
        (policy_problem "certificate_count_limit")
    check_certificates limits.max_certificate_bytes certs

  unfoldable pub x509_shape : Map → Map → Result Problem (Unit {0})
  x509_shape p u = do
    guard (fits_if_present x5t_fits (or_else (get p (ℤ.pos 34)) (get u (ℤ.pos 34))))
        (claims_problem "x5t_shape")
    check_chain (or_else (get p (ℤ.pos 33)) (get u (ℤ.pos 33)))

-- `[1, 395]`: an integer in the protected map.
unfoldable pub required_integer : Map → Map → ℤ → Result Problem (Unit {0})
required_integer p u key = do
  value ← ok_or (get p key) (
      claims_problem
        (if is_some (get u key) then "required_header_location" else "missing_required_header"))
  guard (is_some (integer value)) (claims_problem "required_header_type")

unfoldable pub claims_map : Map → Map → Result Problem Map
claims_map p u = do
  claims ←
      ok_or (get p (ℤ.pos 15)) (
        claims_problem (if is_some (get u (ℤ.pos 15)) then "claims_location" else "missing_claims"))
  elim claims [ Value.map es ↦ ok (pairs es) | _ ↦ err (claims_problem "claims_map_type") ]

-- The closure `text`.
unfoldable pub claim_text : Map → ℤ → Result Problem Text
claim_text claims label = do
  value ← ok_or (get claims label) (
      claims_problem (
        if not (is_some (get claims (ℤ.pos 1))) && not (is_some (get claims (ℤ.pos 2)))
        then "missing_integer_claims"
        else "missing_claim"))
  elim value [ Value.text t ↦ ok t | _ ↦ err (claims_problem "claim_value_type") ]

abbrev pub is_byte_string : Value → Bool
is_byte_string (Value.bytes b) = true
is_byte_string _ = false

abbrev pub has_x509 : Map → Bool
has_x509 p = is_some (get p (ℤ.pos 33)) || is_some (get p (ℤ.pos 34))

-- The tests on the key identifier.
unfoldable pub check_kid : Map → Map → Result Problem (Unit {0})
check_kid p u = do
  guard (fits_if_present is_byte_string (or_else (get p (ℤ.pos 4)) (get u (ℤ.pos 4))))
      (claims_problem "kid_type")
  guard (has_x509 p || is_some (get p (ℤ.pos 4))) (
      if is_some (get u (ℤ.pos 4))
      then policy_problem "protected_kid_required"
      else claims_problem "missing_key_identifier")

-- `UnauthenticatedReceiptClaims` of the two texts.
unfoldable pub claims_of_texts : Result Problem (Text × Text) → Result Problem Claims
claims_of_texts (ok (iss, sub)) = ok (record { issuer = iss; subject = sub; authenticated = false })
claims_of_texts (err problem) = err problem

module _ (uri : Text → Bool) (limits : Limits) where
  -- The tests on the two texts.
  unfoldable pub check_texts : Bool → Text → Text → Result Problem (Unit {0})
  check_texts x509 iss sub = do
    guard (not (x509 && (is_empty iss || ltb 8192 (characters iss))))
        (claims_problem "issuer_length")
    guard (leb (characters iss) limits.max_claim_text_characters)
        (policy_problem "claim_text_limit")
    guard (leb (characters sub) limits.max_claim_text_characters)
        (policy_problem "claim_text_limit")
    guard (not (x509 && not (uri iss))) (claims_problem "x509_issuer_uri")
    guard (not (has_colon iss && not (uri iss))) (claims_problem "uri_syntax")
    guard (not (has_colon sub && not (uri sub))) (claims_problem "uri_syntax")

  -- The tests, and the two texts that pass them.
  unfoldable pub checked_claims : Map → Map → Result Problem (Text × Text)
  checked_claims p u = do
    required_integer p u (ℤ.pos 1)
    required_integer p u (ℤ.pos 395)
    claims ← claims_map p u
    guard (all_labels claims) (claims_problem "claim_label_type")
    iss ← claim_text claims (ℤ.pos 1)
    sub ← claim_text claims (ℤ.pos 2)
    check_texts (has_x509 p) iss sub
    x509_shape limits p u
    check_kid p u
    ok (iss, sub)

  unfoldable pub inspect_claims : Map → Map → Result Problem Claims
  inspect_claims p u = claims_of_texts (checked_claims p u)

-- The nodes of a path.
unfoldable pub check_nodes : List Value → Result Problem (Unit {0})
check_nodes [] = ok tt
check_nodes (Value.bytes node ∷ path) = do
  guard (length node == 32) (structure_problem "path_node_length")
  check_nodes path
check_nodes (_ ∷ path) = err (structure_problem "path_node_type")

unfoldable pub check_path : Value → Result Problem (Unit {0})
check_path (Value.array Values.nil) = err (structure_problem "empty_path")
check_path (Value.array (Values.cons node path)) = check_nodes (node ∷ items path)
check_path _ = err (structure_problem "path_type")

unfoldable pub proof_parts : Value → Result Problem (Value × Value × Value)
proof_parts (Value.array (Values.cons a (Values.cons b (Values.cons c Values.nil)))) = ok (a, b, c)
proof_parts (Value.array _) = err (structure_problem "proof_element_count")
proof_parts _ = err (structure_problem "proof_array_type")

unfoldable pub inspect_proof : Limits → Value → Result Problem (Unit {0})
inspect_proof limits value = do
  (tree_value, leaf_value, path) ← proof_parts value
  tree ← ok_or (unsigned tree_value) (structure_problem "tree_type")
  leaf ← ok_or (unsigned leaf_value) (structure_problem "leaf_type")
  guard (not (tree == 0)) (structure_problem "tree_bounds")
  guard (leb tree limits.max_tree_size) (policy_problem "tree_size_limit")
  guard (ltb leaf tree) (structure_problem "leaf_bounds")
  check_path path
