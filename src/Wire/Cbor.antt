-- ===== src/Wire/Cbor.antt =====
-- crates/pask-wire/src/receipt.rs: the helpers on CBOR values. The values are those of ciborium,
-- re-exported by coset; its reader and writer are parameters.
pub mod Labels
pub mod Equal
pub mod Unique
use pask_workspace.Prelude.{
  ℕ, ℤ, ltb, if◌then◌else◌, Bool, Option, none, some, Text, List, Result, ok, err,
}
use pask_workspace.Wire.Error.{Error}

mutual
  pub data Value : Type 0 where
    integer : ℤ → Value
    bytes : List ℕ → Value
    float : ℕ → Value
    text : Text → Value
    bool : Bool → Value
    null : Value
    tag : ℕ → Value → Value
    array : Values → Value
    map : Entries → Value

  pub data Values : Type 0 where
    nil : Values
    cons : Value → Values → Values

  pub data Entries : Type 0 where
    end : Entries
    entry : Value → Value → Entries → Entries

pub record CborLibrary : Type 0 where
  -- `de::from_reader`: the value read, and what the cursor has left
  pub from_reader : List ℕ → Option (Value × List ℕ)
  -- `ser::into_writer`
  pub into_writer : Value → Option (List ℕ)

-- `unsigned`: 64 bits
unfoldable pub unsigned : Value → Option ℕ
unsigned (Value.integer (ℤ.pos n)) = if ltb n 18446744073709551616 then some n else none
unsigned _ = none

-- `from_reader` with its error, and the test that nothing is left.
abbrev pub whole : Option (Value × List ℕ) → Error → Error → Result Error Value
whole none unread trailing = err unread
whole (some (value, List.[])) unread trailing = ok value
whole (some (value, List.◌∷◌ b rest)) unread trailing = err trailing

-- What `into_writer` gives, with its error.
abbrev pub written : Option (List ℕ) → Error → Result Error (List ℕ)
written none failure = err failure
written (some output) failure = ok output
