-- ===== src/Adapter/Dedup.antt =====
-- crates/pask-adapter/src/dedup.rs. `DedupLog` is the trait, with what its users rely on.
pub mod Memory
pub mod Hex
mod Tests
use pask_workspace.Prelude.{
  ℕ, ◌/◌, ◌%◌, List, [], ◌∷◌, ◌≡◌, Bool, Option, none, some, ◌||◌, if◌then◌else◌, Text, ascii,
  bytes_eq, get_elem?,
}

abbrev pub Bytes : Type 0
Bytes = List ℕ

pub record DedupLog : Type 1 where
  pub Log : Type 0
  pub is_pushed : Log → Bytes → Bool
  pub record_pushed : Log → Bytes → Text → Log
  pub prior_receipt_id : Log → Bytes → Option Text
  -- A recorded digest is pushed, and no other digest becomes so.
  pub is_pushed_record :
      (log : Log) (d e : Bytes) (id : Text)
      → is_pushed (record_pushed log d id) e ≡ (bytes_eq d e || is_pushed log e)
  -- The identifier recorded last by `record_pushed` is the one that is found. What a log answers for a
  -- digest that it came by in another way is left open.
  pub prior_record :
      (log : Log) (d e : Bytes) (id : Text)
      → prior_receipt_id (record_pushed log d id) e
        ≡ (if bytes_eq d e then some id else prior_receipt_id log e)

unfoldable pub receipt_digest : (Bytes → Bytes) → Bytes → Bytes
receipt_digest sha256 signed_receipt = sha256 signed_receipt

abbrev pub nibble : ℕ → ℕ
nibble i = elim (get_elem? (ascii "0123456789abcdef") i) [ some c ↦ c | none ↦ 0 ]

-- `HEX[usize::from(byte >> 4)]`, `HEX[usize::from(byte & 0x0f)]`
unfoldable pub lower_hex : Bytes → Text
lower_hex [] = []
lower_hex (byte ∷ bytes) = nibble (byte / 16) ∷ nibble (byte % 16) ∷ lower_hex bytes
