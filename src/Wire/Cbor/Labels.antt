-- ===== src/Wire/Cbor/Labels.antt =====
-- crates/pask-wire/src/receipt.rs (cose_sign1_items, map_entry, signed) and
-- crates/pask-wire/src/receipt_inspection.rs (integer, get): labels and lookups.
use pask_workspace.Prelude.{
  ℤ, ltb, ◌==◌, int_eq, if◌then◌else◌, Bool, true, false, List, [], ◌∷◌, Option, none, some,
}
use pask_workspace.Wire.Cbor.{Value, Values, Entries}

-- The element and entry lists as lists.
unfoldable pub items : Values → List Value
items Values.nil = []
items (Values.cons v vs) = v ∷ items vs

unfoldable pub pairs : Entries → List (Value × Value)
pairs Entries.end = []
pairs (Entries.entry k v es) = (k, v) ∷ pairs es

-- `signed`: 64 bits
unfoldable pub signed : Value → Option ℤ
signed (Value.integer (ℤ.pos n)) = if ltb n 9223372036854775808 then some (ℤ.pos n) else none
signed (Value.integer (ℤ.negsuc n)) = if ltb n 9223372036854775808 then some (ℤ.negsuc n) else none
signed _ = none

-- `integer`: all that CBOR has
abbrev pub integer : Value → Option ℤ
integer (Value.integer n) = some n
integer _ = none

abbrev pub is_some_int : Option ℤ → ℤ → Bool
is_some_int none n = false
is_some_int (some m) n = int_eq m n

-- The value of the first entry whose key passes the test.
abbrev pub find_key : (Value → Bool) → List (Value × Value) → Option Value
find_key test [] = none
find_key test ((k, v) ∷ es) =
    let rest = find_key test es in elim (test k) [ true ↦ some v | false ↦ rest ]

-- `get`
abbrev pub get : List (Value × Value) → ℤ → Option Value
get es label = find_key (λ k. is_some_int (integer k) label) es

-- `map_entry`
unfoldable pub map_entry : Value → ℤ → Option Value
map_entry (Value.map es) label = find_key (λ k. is_some_int (signed k) label) (pairs es)
map_entry _ label = none

abbrev array_items : Value → Option (List Value)
array_items (Value.array vs) = some (items vs)
array_items _ = none

-- `cose_sign1_items`
unfoldable pub cose_sign1_items : Value → Option (List Value)
cose_sign1_items (Value.tag t inner) = if t == 18 then array_items inner else none
cose_sign1_items (Value.array vs) = some (items vs)
cose_sign1_items _ = none

-- `matches!(key, Value::Integer(_) | Value::Text(_))`
abbrev pub is_label : Value → Bool
is_label (Value.integer n) = true
is_label (Value.text t) = true
is_label _ = false
