-- ===== src/Adapter/Dedup/Memory.antt =====
-- `InMemoryDedupLog`: a map under a mutex that every method holds for its whole body.
use pask_workspace.Prelude.{
  List, [], ◌∷◌, ◌≡◌, refl, Bool, true, false, Option, none, some, ◌||◌, if◌then◌else◌, Text,
  bytes_eq, bytes_eq→eq, arith,
}
use pask_workspace.Adapter.Dedup.{Bytes, DedupLog}

abbrev pub Entries : Type 0
Entries = List (Bytes × Text)

-- `HashMap::get`, `insert` and `contains_key`; the order of the entries shows nowhere.
unfoldable pub lookup : Entries → Bytes → Option Text
lookup [] key = none
lookup ((k, v) ∷ entries) key = if bytes_eq k key then some v else lookup entries key

unfoldable pub insert : Entries → Bytes → Text → Entries
insert [] key value = (key, value) ∷ []
insert ((k, v) ∷ entries) key value =
    if bytes_eq k key then (key, value) ∷ entries else (k, v) ∷ insert entries key value

abbrev some? : Option Text → Bool
some? none = false
some? (some t) = true

unfoldable pub is_pushed : Entries → Bytes → Bool
is_pushed entries digest = some? (lookup entries digest)

bytes_eq_trans : (k d e : Bytes) → bytes_eq k d ≡ true → bytes_eq k e ≡ bytes_eq d e
bytes_eq_trans k d e h = let same : k ≡ d = bytes_eq→eq k d h in rw same

bytes_eq_right : (k d e : Bytes) → bytes_eq d e ≡ true → bytes_eq k d ≡ bytes_eq k e
bytes_eq_right k d e h = let same : d ≡ e = bytes_eq→eq d e h in rw same

-- After a receipt is recorded its digest finds the identifier recorded, and every other digest
-- finds what it found before.
pub lookup-insert :
    (entries : Entries) (d e : Bytes) (id : Text)
    → lookup (insert entries d id) e ≡ (if bytes_eq d e then some id else lookup entries e)
unfolding lookup insert
lookup-insert [] d e id = refl
lookup-insert ((k, v) ∷ entries) d e id =
    ground (arith, lookup-insert entries d e id, bytes_eq_trans k d e, bytes_eq_right k d e)

pub is_pushed-insert :
    (entries : Entries) (d e : Bytes) (id : Text)
    → is_pushed (insert entries d id) e ≡ (bytes_eq d e || is_pushed entries e)
unfolding is_pushed
is_pushed-insert entries d e id = ground (arith, lookup-insert entries d e id)

-- The in-memory log does what the trait promises.
unfoldable pub memory_log : DedupLog
memory_log = record {
  Log = Entries;
  is_pushed = is_pushed;
  record_pushed = insert;
  prior_receipt_id = lookup;
  is_pushed_record = is_pushed-insert;
  prior_record = lookup-insert;
}
