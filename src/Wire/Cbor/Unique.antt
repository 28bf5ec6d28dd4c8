-- ===== src/Wire/Cbor/Unique.antt =====
-- crates/pask-wire/src/receipt_inspection.rs: `equal_key` and `check_unique_maps`.
use pask_workspace.Prelude.{
  ℕ, suc, ◌==◌, ◌&&◌, ◌||◌, if◌then◌else◌, Bool, true, false, List, [], ◌∷◌, String, Result, ok,
  err, ◌>>◌,
}
use pask_workspace.Wire.Cbor.{Value, Values, Entries}
use pask_workspace.Wire.Cbor.Equal.{is_nan, float_eq, value_eq}

abbrev pub any_entry : (Value → Value → Bool) → Entries → Bool
any_entry test Entries.end = false
any_entry test (Entries.entry k v es) = test k v || any_entry test es

abbrev pub entry_count : Entries → ℕ
entry_count Entries.end = 0
entry_count (Entries.entry k v es) = suc (entry_count es)

unfoldable mutual
  pub equal_key : Value → Value → Bool
  equal_key (Value.map a) (Value.map b) = entry_count a == entry_count b && all_in a b
  equal_key (Value.array a) (Value.array b) = zip_equal a b
  equal_key (Value.tag s a) (Value.tag t b) = s == t && equal_key a b
  equal_key (Value.float a) (Value.float b) = float_eq a b || (is_nan a && is_nan b)
  equal_key a b = value_eq a b

  -- `a.iter().all(|(ak, av)| b.iter().any(…))`
  pub all_in : Entries → Entries → Bool
  all_in Entries.end b = true
  all_in (Entries.entry k v es) b =
      any_entry (λ l w. equal_key k l && equal_key v w) b && all_in es b

  -- Equal lengths, and equal elements place by place.
  pub zip_equal : Values → Values → Bool
  zip_equal Values.nil Values.nil = true
  zip_equal (Values.cons a rest) (Values.cons b others) = equal_key a b && zip_equal rest others
  zip_equal _ _ = false

abbrev pub any_value : (Value → Bool) → List Value → Bool
any_value test [] = false
any_value test (v ∷ vs) = test v || any_value test vs

unfoldable mutual
  pub check_unique_maps : Value → Result String (Unit {0})
  check_unique_maps (Value.map es) = check_entries [] es
  check_unique_maps (Value.array vs) = check_values vs
  check_unique_maps (Value.tag t v) = check_unique_maps v
  check_unique_maps _ = ok tt

  -- The loop over a map; the first argument is the keys before, latest first.
  pub check_entries : List Value → Entries → Result String (Unit {0})
  check_entries seen Entries.end = ok tt
  check_entries seen (Entries.entry k v es) =
      let rest = (do check_unique_maps k; check_unique_maps v; check_entries (k ∷ seen) es) in
      if any_value (equal_key k) seen then err "duplicate_key" else rest

  pub check_values : Values → Result String (Unit {0})
  check_values Values.nil = ok tt
  check_values (Values.cons v vs) = do check_unique_maps v; check_values vs
