-- ===== src/Wire/Scan/Items.antt =====
-- crates/pask-wire/src/receipt_cbor.rs: `item`, the containers, and `Budget::scan`.
use pask_workspace.Prelude.{
  ℕ, ℤ, zero, suc, ◌+◌, ◌-◌, ◌*◌, ◌==◌, ltb, leb, ◌&&◌, ◌||◌, not, if◌then◌else◌, Bool, true, false,
  String, List, Option, none, some, length, get_elem?,
}
use pask_workspace.Wire.Inspection.{Limits, structure_problem, policy_problem, claims_problem}
use pask_workspace.Wire.Scan.Machine.{
  M, Fault, Scan, done, stop, ◌>>=◌, ◌>>◌, pure, fail, refuse_if, invalid_cbor, item_limit,
}
use pask_workspace.Wire.Scan.Roles.{
  Role, array_limit, key_role, value_role, element_role, tag_role, is_key, is_protected_map,
}
use pask_workspace.Wire.Scan.Atoms.{
  Head, usize_end, definite, is_break, take_bytes, start, string_item,
}

-- The major types, a byte having three bits for them.
pub data Kind : Type 0 where
  unsigned negative byte_string text_string array map tag simple : Kind

unfoldable pub kind : ℕ → Kind
kind zero = Kind.unsigned
kind (suc zero) = Kind.negative
kind (suc (suc zero)) = Kind.byte_string
kind (suc (suc (suc zero))) = Kind.text_string
kind (suc (suc (suc (suc zero)))) = Kind.array
kind (suc (suc (suc (suc (suc zero))))) = Kind.map
kind (suc (suc (suc (suc (suc (suc zero)))))) = Kind.tag
kind _ = Kind.simple

-- `matches!(major, 4..=6)`
abbrev pub nests : Kind → Bool
nests Kind.array = true
nests Kind.map = true
nests Kind.tag = true
nests _ = false

abbrev exceeds : Option ℕ → ℕ → Bool
exceeds none limit = false
exceeds (some n) limit = ltb limit n

-- `n.checked_mul(…)` and the comparison with what is left of the budget.
unfoldable pub room_for : Bool → Option ℕ → ℕ → M (Unit {0})
room_for is_map none max_items r = done tt r
room_for is_map (some n) max_items r =
    refuse_if
      (not (ltb (n * (if is_map then 2 else 1)) usize_end)
        || ltb (max_items - r.items) (n * (if is_map then 2 else 1)))
      item_limit r

-- `count == Some(i)`
abbrev pub is_last : Option ℕ → ℕ → Bool
is_last none i = false
is_last (some n) i = n == i

abbrev pub is_indefinite : Option ℕ → Bool
is_indefinite none = true
is_indefinite (some n) = false

-- `self.x509 = true` at the keys 33 and 34 of the protected map.
unfoldable pub note_x509 : Role → Option ℤ → M (Unit {0})
note_x509 role key r = done tt (record r {
  x509 = r.x509 || (is_protected_map role && (is_key key (ℤ.pos 33) || is_key key (ℤ.pos 34)));
})

-- The integers give their value, all else none.
unfoldable pub simple_item : Head → M (Option ℤ)
simple_item h =
    refuse_if
      (h.info == 31 || (h.info == 24 && elim h.argument [ none ↦ false | some v ↦ ltb v 32 ]))
      invalid_cbor
    >>= λ _. pure none

module _ (bytes : List ℕ) (limits : Limits) where
  -- The limit of a container and the code of its excess.
  unfoldable pub container_limit : Bool → Role → ℕ × String
  container_limit true role = (limits.max_map_entries, "map_entry_limit")
  container_limit false role = array_limit limits role

  -- The tests on the count before the loop.
  unfoldable pub check_count : Bool → Role → Option ℕ → M (Unit {0})
  check_count is_map role count = do
    refuse_if (exceeds count (container_limit is_map role).0)
        (policy_problem (container_limit is_map role).1)
    room_for is_map count limits.max_cbor_items

  -- One round of the loop over a map, or over an array; `item` scans a child in a role.
  unfoldable pub entry_round : (Role → M (Option ℤ)) → Role → M (Option ℤ)
  entry_round item role = do
    key ← item (key_role role)
    note_x509 role key
    item (value_role role key)

  unfoldable pub child : (Role → M (Option ℤ)) → Bool → Role → ℕ → M (Option ℤ)
  child item true role i = entry_round item role
  child item false role i = item (element_role role i)

  -- The match on the major type; `loop` scans the children of a container.
  unfoldable pub finish :
      ℕ
      → (Role → M (Option ℤ))
      → (Bool → Option ℕ → M (Unit {0}))
      → Role
      → Head
      → Kind
      → M (Option ℤ)
  finish fuel item loop role h Kind.unsigned = definite h.argument >>= λ n. pure (some (ℤ.pos n))
  finish fuel item loop role h Kind.negative = definite h.argument >>= λ n. pure (some (ℤ.negsuc n))
  finish fuel item loop role h Kind.byte_string =
      string_item bytes limits fuel role false h >>= λ _. pure none
  finish fuel item loop role h Kind.text_string =
      string_item bytes limits fuel role true h >>= λ _. pure none
  finish fuel item loop role h Kind.array = do
    check_count false role h.argument
    loop false h.argument
    pure none
  finish fuel item loop role h Kind.map = do
    check_count true role h.argument
    loop true h.argument
    pure none
  finish fuel item loop role h Kind.tag = do
    number ← definite h.argument
    inner ← item (tag_role role number)
    pure none
  finish fuel item loop role h Kind.simple = simple_item h

  unfoldable mutual
    -- `item`
    pub item : ℕ → ℕ → Role → M (Option ℤ)
    item zero depth role r = stop Fault.out_of_fuel r.items
    item (suc fuel) depth role r =
        (start bytes limits role >>= λ h.
        refuse_if (nests (kind h.major) && leb limits.max_cbor_nesting depth)
          (policy_problem "cbor_nesting_limit")
        >>= λ _.
            finish fuel (item fuel (depth + 1))
              (λ is_map count. children fuel (depth + 1) role is_map count 0) role h (kind h.major))
          r

    -- The loop over the children of a container, from place `i`.
    pub children : ℕ → ℕ → Role → Bool → Option ℕ → ℕ → M (Unit {0})
    children zero depth role is_map count i r = stop Fault.out_of_fuel r.items
    children (suc fuel) depth role is_map count i r = elim (is_last count i) [
      | true ↦ done tt r
      | false ↦ elim (is_indefinite count && is_break bytes (get_elem? bytes r.pos)) [
        | true ↦ (take_bytes bytes 1 >>= λ b. pure tt) r
        | false ↦ elim (leb (container_limit is_map role).0 i) [
          | true ↦ fail (policy_problem (container_limit is_map role).1) r
          | false ↦
              (child (item fuel depth) is_map role i >>= λ _.
              children fuel depth role is_map count (suc i))
                r
        ]
      ]
    ]

  -- The tests of `Budget::scan` after the item.
  unfoldable pub check_end : String → M (Unit {0})
  check_end trailing r =
      (refuse_if (not (r.pos == length bytes)) (structure_problem trailing) >>= λ _.
      refuse_if (r.x509 && ltb 8192 r.issuer_characters) (claims_problem "issuer_length") >>= λ _.
      refuse_if
        (ltb limits.max_claim_text_characters r.issuer_characters
          || ltb limits.max_claim_text_characters r.subject_characters)
        (policy_problem "claim_text_limit"))
        r

  -- `Budget::scan`: two rounds of fuel for each byte, and one more.
  unfoldable pub scan : ℕ → Bool → ℕ → Role → String → Scan (Unit {0})
  scan counted x5t_invalid depth role trailing =
      (item (suc (length bytes + length bytes)) depth role >>= λ _. check_end trailing) (record {
        pos = 0;
        items = counted;
        unprotected_x5t_invalid = x5t_invalid;
        issuer_characters = 0;
        subject_characters = 0;
        x509 = false;
      })
