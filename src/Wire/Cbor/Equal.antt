-- ===== src/Wire/Cbor/Equal.antt =====
-- `==` on ciborium's values, which is derived, and on floats IEEE 754's.
use pask_workspace.Prelude.{ℕ, ◌%◌, ltb, ◌==◌, int_eq, not, ◌&&◌, ◌||◌, Bool, true, false, bytes_eq}
use pask_workspace.Wire.Cbor.{Value, Values, Entries}

-- A double is its 64 bits: an exponent of ones and a mantissa that is not zero.
pub is_nan : ℕ → Bool
is_nan bits = ltb 9218868437227405312 (bits % 9223372036854775808)

-- Equal bits, or two zeros.
pub float_eq : ℕ → ℕ → Bool
float_eq a b =
    not (is_nan a)
    && not (is_nan b)
    && (a == b || (a % 9223372036854775808 == 0 && b % 9223372036854775808 == 0))

abbrev pub bool_eq : Bool → Bool → Bool
bool_eq true b = b
bool_eq false b = not b

unfoldable mutual
  unfolding float_eq

  pub value_eq : Value → Value → Bool
  value_eq (Value.integer a) (Value.integer b) = int_eq a b
  value_eq (Value.bytes a) (Value.bytes b) = bytes_eq a b
  value_eq (Value.float a) (Value.float b) = float_eq a b
  value_eq (Value.text a) (Value.text b) = bytes_eq a b
  value_eq (Value.bool a) (Value.bool b) = bool_eq a b
  value_eq Value.null Value.null = true
  value_eq (Value.tag s a) (Value.tag t b) = s == t && value_eq a b
  value_eq (Value.array a) (Value.array b) = values_eq a b
  value_eq (Value.map a) (Value.map b) = entries_eq a b
  value_eq _ _ = false

  pub values_eq : Values → Values → Bool
  values_eq Values.nil Values.nil = true
  values_eq (Values.cons a rest) (Values.cons b others) = value_eq a b && values_eq rest others
  values_eq _ _ = false

  pub entries_eq : Entries → Entries → Bool
  entries_eq Entries.end Entries.end = true
  entries_eq (Entries.entry k v es) (Entries.entry l w fs) =
      value_eq k l && value_eq v w && entries_eq es fs
  entries_eq _ _ = false
