-- ===== src/Wire/Scan/Roles.antt =====
-- The roles that the scanner gives to the parts of a receipt, and what each role asks for.
use pask_workspace.Prelude.{
  ℕ, ℤ, zero, suc, ◌==◌, ◌||◌, not, if◌then◌else◌, Bool, true, false, String, Option, none, some,
  int_eq,
}
use pask_workspace.Wire.Inspection.{Limits, structure_problem, claims_problem}
use pask_workspace.Wire.Scan.Machine.{M, done, pure, refuse_if}

pub data Role : Type 0 where
  any envelope sign1 protected unprotected protected_map claims issuer subject signature : Role
  vdp proofs proof path chain certificate header_label claim_label required_integer : Role
  critical critical_label tree_size leaf_index thumbprint thumbprint_algorithm : Role
  unprotected_thumbprint unprotected_thumbprint_algorithm : Role

module _ (limits : Limits) where
  unfoldable pub byte_limit : Role → ℕ × String
  byte_limit Role.protected = (limits.max_protected_bytes, "protected_byte_limit")
  byte_limit Role.signature = (limits.max_signature_bytes, "signature_byte_limit")
  byte_limit Role.chain = (limits.max_certificate_bytes, "certificate_byte_limit")
  byte_limit Role.certificate = (limits.max_certificate_bytes, "certificate_byte_limit")
  byte_limit _ = (limits.max_receipt_bytes, "receipt_byte_limit")

  unfoldable pub array_limit : Role → ℕ × String
  array_limit Role.proofs = (limits.max_proofs_per_receipt, "proof_limit")
  array_limit Role.path = (limits.max_path_nodes_per_proof, "path_limit")
  array_limit Role.chain = (limits.max_certificate_chain_length, "certificate_count_limit")
  array_limit _ = (limits.max_cbor_items, "cbor_item_limit")

-- `matches!(major, 0 | 1)` and `matches!(major, 0 | 1 | 3)`
abbrev is_integer : ℕ → Bool
is_integer major = major == 0 || major == 1

abbrev is_label_major : ℕ → Bool
is_label_major major = major == 0 || major == 1 || major == 3

abbrev pub mark_x5t : Bool → M (Unit {0})
mark_x5t true r = done tt (record r { unprotected_x5t_invalid = true })
mark_x5t false r = done tt r

-- The match on the role and the major type.
unfoldable pub check_role : Role → ℕ → M (Unit {0})
check_role Role.header_label major =
    refuse_if (not (is_label_major major)) (structure_problem "header_label_type")
check_role Role.claim_label major =
    refuse_if (not (is_label_major major)) (claims_problem "claim_label_type")
check_role Role.required_integer major =
    refuse_if (not (is_integer major)) (claims_problem "required_header_type")
check_role Role.critical_label major =
    refuse_if (not (is_label_major major)) (structure_problem "crit_label_type")
check_role Role.tree_size major = refuse_if (not (major == 0)) (structure_problem "tree_type")
check_role Role.leaf_index major = refuse_if (not (major == 0)) (structure_problem "leaf_type")
check_role Role.thumbprint_algorithm major =
    refuse_if (not (is_label_major major)) (claims_problem "x5t_shape")
check_role Role.unprotected_thumbprint_algorithm major = mark_x5t (not (is_label_major major))
check_role _ major = pure tt

unfoldable pub key_role : Role → Role
key_role Role.protected_map = Role.header_label
key_role Role.unprotected = Role.header_label
key_role Role.vdp = Role.header_label
key_role Role.claims = Role.claim_label
key_role _ = Role.any

-- `key == Some(label)`
abbrev pub is_key : Option ℤ → ℤ → Bool
is_key none label = false
is_key (some k) label = int_eq k label

-- The role of the value behind a key.
unfoldable pub value_role : Role → Option ℤ → Role
value_role Role.protected_map key =
    if is_key key (ℤ.pos 1) || is_key key (ℤ.pos 395)
    then Role.required_integer
    else if is_key key (ℤ.pos 2)
    then Role.critical
    else if is_key key (ℤ.pos 15)
    then Role.claims
    else if is_key key (ℤ.pos 34)
    then Role.thumbprint
    else if is_key key (ℤ.pos 33)
    then Role.chain
    else Role.any
value_role Role.unprotected key =
    if is_key key (ℤ.pos 34)
    then Role.unprotected_thumbprint
    else if is_key key (ℤ.pos 33)
    then Role.chain
    else if is_key key (ℤ.pos 396)
    then Role.vdp
    else Role.any
value_role Role.claims key =
    if is_key key (ℤ.pos 1)
    then Role.issuer
    else if is_key key (ℤ.pos 2)
    then Role.subject
    else Role.any
value_role Role.vdp key = if is_key key (ℤ.negsuc 0) then Role.proofs else Role.any
value_role _ key = Role.any

-- The role of the element at a place.
unfoldable pub element_role : Role → ℕ → Role
element_role Role.sign1 zero = Role.protected
element_role Role.sign1 (suc zero) = Role.unprotected
element_role Role.sign1 (suc (suc (suc zero))) = Role.signature
element_role Role.proof zero = Role.tree_size
element_role Role.proof (suc zero) = Role.leaf_index
element_role Role.proof (suc (suc zero)) = Role.path
element_role Role.critical i = Role.critical_label
element_role Role.thumbprint zero = Role.thumbprint_algorithm
element_role Role.unprotected_thumbprint zero = Role.unprotected_thumbprint_algorithm
element_role Role.chain i = Role.certificate
element_role _ i = Role.any

abbrev pub is_protected_map : Role → Bool
is_protected_map Role.protected_map = true
is_protected_map _ = false

abbrev pub is_issuer : Role → Bool
is_issuer Role.issuer = true
is_issuer _ = false

abbrev pub is_subject : Role → Bool
is_subject Role.subject = true
is_subject _ = false

-- The role inside a tag.
unfoldable pub tag_role : Role → ℕ → Role
tag_role Role.envelope tag = if tag == 18 then Role.sign1 else Role.any
tag_role _ tag = Role.any
