-- ===== src/Wire/Json.antt =====
-- crates/pask-wire/src/payload.rs: the RFC 8785 canonical form (`write_canonical`).
-- `canonical` is what `write_canonical` appends to its output. The text of strings and numbers is
-- made by serde_json, ryu_js and the standard library: the parameter `JsonText`.
use pask_workspace.Prelude.{
  ℕ, ◌+◌, Bool, true, false, List, [], ◌∷◌, ◌++◌, ◌==◌, ltb, if◌then◌else◌, Option, none, some,
  Text, ascii, bytes_eq, Result, ok, err, ◌>>=◌, String,
}
use pask_workspace.Wire.Error.{Error}

-- serde_json's numbers: `negative n` is -(n + 1), and a float is its bits.
pub data Number : Type 0 where
  unsigned : ℕ → Number
  negative : ℕ → Number
  float : ℕ → Number

mutual
  pub data Json : Type 0 where
    null : Json
    bool : Bool → Json
    number : Number → Json
    string : Text → Json
    array : Items → Json
    object : Fields → Json

  pub data Items : Type 0 where
    nil : Items
    cons : Json → Items → Items

  pub data Fields : Type 0 where
    end : Fields
    field : Text → Json → Fields → Fields

pub record JsonText : Type 0 where
  -- `serde_json::to_string` of a string
  pub quote : Text → Result String Text
  -- `to_string` of an unsigned integer
  pub decimal : ℕ → Text
  pub is_finite : ℕ → Bool
  -- `ryu_js::Buffer::format_finite`
  pub format_finite : ℕ → Text
  -- `str::encode_utf16`
  pub utf16 : Text → List ℕ

-- `left.cmp(right)` is `Less`.
unfoldable pub lex_lt : List ℕ → List ℕ → Bool
lex_lt xs [] = false
lex_lt [] (y ∷ ys) = true
lex_lt (x ∷ xs) (y ∷ ys) =
    let rest = lex_lt xs ys in if ltb x y then true else if x == y then rest else false

-- One field, its value already written out.
abbrev pub Entry : Type 0
Entry = Text × Result Error Text

abbrev pub quoted : Result String Text → Result Error Text
quoted (ok t) = ok t
quoted (err message) = err (Error.jcs message)

-- The pieces, with a comma before each but the first.
unfoldable pub join : List Text → Text
join [] = []
join (x ∷ []) = x
join (x ∷ y ∷ xs) = x ++ (44 ∷ join (y ∷ xs))

module _ (text : JsonText) where
  -- `sort_by`, which is stable, on the UTF-16 form of the keys.
  unfoldable pub insert_entry : Entry → List Entry → List Entry
  insert_entry e [] = e ∷ []
  insert_entry e (f ∷ fs) =
      let rest = insert_entry e fs in
      if lex_lt (text.utf16 f.0) (text.utf16 e.0) then f ∷ rest else e ∷ f ∷ fs

  unfoldable pub sort_entries : List Entry → List Entry
  sort_entries [] = []
  sort_entries (e ∷ es) = insert_entry e (sort_entries es)

  -- `"key":value` for each entry; the first error ends the loop.
  unfoldable pub write_entries : List Entry → Result Error (List Text)
  write_entries [] = ok []
  write_entries ((key, value) ∷ es) = do
    escaped ← quoted (text.quote key)
    written ← value
    rest ← write_entries es
    ok ((escaped ++ (58 ∷ written)) ∷ rest)

  unfoldable pub write_number : Number → Result Error Text
  write_number (Number.unsigned n) = ok (text.decimal n)
  write_number (Number.negative n) = ok (45 ∷ text.decimal (n + 1))
  write_number (Number.float bits) =
      if text.is_finite bits
      then ok (text.format_finite bits)
      else err (Error.jcs "JCS numbers must be finite")

  unfoldable mutual
    pub canonical : Json → Result Error Text
    canonical Json.null = ok (ascii "null")
    canonical (Json.bool true) = ok (ascii "true")
    canonical (Json.bool false) = ok (ascii "false")
    canonical (Json.number n) = write_number n
    canonical (Json.string s) = quoted (text.quote s)
    canonical (Json.array items) = do
      pieces ← canonical_items items
      ok (91 ∷ (join pieces ++ (93 ∷ [])))
    canonical (Json.object fields) = do
      pieces ← write_entries (sort_entries (canonical_fields fields))
      ok (123 ∷ (join pieces ++ (125 ∷ [])))

    pub canonical_items : Items → Result Error (List Text)
    canonical_items Items.nil = ok []
    canonical_items (Items.cons item items) = do
      written ← canonical item
      rest ← canonical_items items
      ok (written ∷ rest)

    pub canonical_fields : Fields → List Entry
    canonical_fields Fields.end = []
    canonical_fields (Fields.field key value fields) =
        (key, canonical value) ∷ canonical_fields fields

-- `canonicalize_json`; `from_slice` is serde_json's.
unfoldable pub canonicalize_json :
    JsonText → (List ℕ → Result String Json) → List ℕ → Result Error Text
canonicalize_json text from_slice bytes = elim (from_slice bytes) [
  | ok value ↦ canonical text value
  | err message ↦ err (Error.json message)
]

-- `object.get(key)` and `object.remove(key)`; a key stands once in a map.
unfoldable pub get_field : Text → Fields → Option Json
get_field key Fields.end = none
get_field key (Fields.field k v fields) = if bytes_eq k key then some v else get_field key fields

unfoldable pub remove_field : Text → Fields → Fields
remove_field key Fields.end = Fields.end
remove_field key (Fields.field k v fields) =
    let rest = remove_field key fields in if bytes_eq k key then rest else Fields.field k v rest

-- A write through `get_mut(key)`.
unfoldable pub set_field : Text → Json → Fields → Fields
set_field key w Fields.end = Fields.end
set_field key w (Fields.field k v fields) =
    let rest = set_field key w fields in
    if bytes_eq k key then Fields.field k w fields else Fields.field k v rest
