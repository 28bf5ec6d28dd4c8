-- ===== src/Wire/Scan/Atoms.antt =====
-- crates/pask-wire/src/receipt_cbor.rs: `take`, `argument`, `bump`, and the byte and text strings.
use pask_workspace.Prelude.{
  ℕ, zero, suc, ◌+◌, ◌*◌, ◌/◌, ◌%◌, ◌==◌, ltb, leb, ◌&&◌, not, if◌then◌else◌, Bool, true, false,
  String, List, [], ◌∷◌, Option, none, some, length, take, drop, get_elem?,
}
use pask_workspace.Wire.Inspection.{Limits, policy_problem}
use pask_workspace.Wire.Scan.Machine.{
  M, Fault, done, stop, ◌>>=◌, ◌>>◌, pure, fail, refuse_if, invalid_cbor, item_limit,
}
use pask_workspace.Wire.Scan.Utf8.{char_count}
use pask_workspace.Wire.Scan.Roles.{Role, byte_limit, is_issuer, is_subject, check_role}

-- One more than the largest `usize`.
abbrev pub usize_end : ℕ
usize_end = 18446744073709551616

-- Big-endian bytes as a number.
unfoldable pub be : ℕ → List ℕ → ℕ
be acc [] = acc
be acc (b ∷ bs) = be (acc * 256 + b) bs

-- The head of an item: the major type, the additional information and the argument.
pub record Head : Type 0 where
  pub major : ℕ
  pub info : ℕ
  pub argument : Option ℕ

-- A number that must be there.
abbrev pub definite : Option ℕ → M ℕ
definite none = fail invalid_cbor
definite (some n) = pure n

module _ (bytes : List ℕ) where
  -- `take`
  unfoldable pub take_bytes : ℕ → M (List ℕ)
  take_bytes n r = elim (ltb (r.pos + n) usize_end && leb (r.pos + n) (length bytes)) [
    | true ↦ done (take n (drop r.pos bytes)) (record r { pos = r.pos + n })
    | false ↦ fail invalid_cbor r
  ]

  unfoldable pub take_number : ℕ → M (Option ℕ)
  take_number n = do part ← take_bytes n; pure (some (be 0 part))

  -- `argument`
  unfoldable pub argument : ℕ → M (Option ℕ)
  argument info =
      if ltb info 24
      then pure (some info)
      else if info == 24
      then take_number 1
      else if info == 25
      then take_number 2
      else if info == 26
      then take_number 4
      else if info == 27
      then take_number 8
      else if info == 31
      then pure none
      else fail invalid_cbor

  -- `self.bytes.get(self.pos) == Some(&0xff)`
  abbrev pub is_break : Option ℕ → Bool
  is_break none = false
  is_break (some b) = b == 255

  -- A text counts its characters, a byte string none.
  unfoldable pub characters_of : Bool → List ℕ → M ℕ
  characters_of true part = definite (char_count part)
  characters_of false part = pure 0

  module _ (limits : Limits) where
    -- `bump`
    unfoldable pub bump : M (Unit {0})
    bump r = elim (ltb (r.items + 1) usize_end) [
      | false ↦ fail item_limit r
      | true ↦ elim (leb (r.items + 1) limits.max_cbor_items) [
        | true ↦ done tt (record r { items = r.items + 1 })
        | false ↦ stop (Fault.problem item_limit) (r.items + 1)
      ]
    ]

    -- From the start of `item` to the argument.
    unfoldable pub start : Role → M Head
    start role = do
      bump
      head ← take_bytes 1
      check_role role (be 0 head / 32)
      arg ← argument (be 0 head % 32)
      pure (record { major = be 0 head / 32; info = be 0 head % 32; argument = arg })

    -- One chunk of a string of indefinite length: the new totals.
    unfoldable pub chunk : Bool → ℕ → ℕ → String → ℕ → ℕ → M (ℕ × ℕ)
    chunk is_text major limit code total characters = do
      bump
      head ← take_bytes 1
      refuse_if (not (be 0 head / 32 == major)) invalid_cbor
      arg ← argument (be 0 head % 32)
      len ← definite arg
      refuse_if (not (ltb (total + len) usize_end)) (policy_problem code)
      refuse_if (ltb limit (total + len)) (policy_problem code)
      part ← take_bytes len
      n ← characters_of is_text part
      refuse_if (not (ltb (characters + n) usize_end)) (policy_problem "claim_text_limit")
      pure (total + len, characters + n)

    -- The loop over the chunks, on fuel, and the break after it.
    unfoldable pub chunks : ℕ → Bool → ℕ → ℕ → String → ℕ × ℕ → M ℕ
    chunks zero is_text major limit code totals r = stop Fault.out_of_fuel r.items
    chunks (suc fuel) is_text major limit code totals r = elim (is_break (get_elem? bytes r.pos)) [
      | true ↦ (take_bytes 1 >>= λ b. pure totals.1) r
      | false ↦
          (chunk is_text major limit code totals.0 totals.1
              >>= chunks fuel is_text major limit code)
            r
    ]

    -- The characters of a string.
    unfoldable pub string_body : ℕ → Bool → ℕ → ℕ → String → Option ℕ → M ℕ
    string_body fuel is_text major limit code (some len) = do
      refuse_if (ltb limit len) (policy_problem code)
      part ← take_bytes len
      characters_of is_text part
    string_body fuel is_text major limit code none = chunks fuel is_text major limit code (0, 0)

    abbrev max : ℕ → ℕ → ℕ
    max a b = if ltb a b then b else a

    -- What a string adds to the reader's claim lengths.
    unfoldable pub count_claim : Role → ℕ → M (Unit {0})
    count_claim role n r = done tt (record r {
      issuer_characters = if is_issuer role then max r.issuer_characters n else r.issuer_characters;
      subject_characters =
          if is_subject role then max r.subject_characters n else r.subject_characters;
    })

    unfoldable pub string_item : ℕ → Role → Bool → Head → M (Unit {0})
    string_item fuel role is_text h =
        let (limit, code) = byte_limit limits role in
        string_body fuel is_text h.major limit code h.argument >>= count_claim role
