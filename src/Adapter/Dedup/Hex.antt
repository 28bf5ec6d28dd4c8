-- ===== src/Adapter/Dedup/Hex.antt =====
-- `lower_hex` loses nothing.
use pask_workspace.Prelude.{
  ℕ, ◌+◌, ◌*◌, ◌/◌, ◌%◌, ◌≡◌, ◌<◌, refl, arith, List, [], ◌∷◌, ◌-◌, All, if◌then◌else◌, leb,
}
use pask_workspace.Adapter.Dedup.{Bytes, nibble, lower_hex}

-- The value of a hexadecimal digit, and the bytes that a text of them spells.
unhex_digit : ℕ → ℕ
unhex_digit c = if leb c 57 then c - 48 else c - 87

pub unhex : List ℕ → Bytes
unhex (hi ∷ lo ∷ rest) = (unhex_digit hi * 16 + unhex_digit lo) ∷ unhex rest
unhex _ = []

unhex_digit-nibble : (x : ℕ) → x < 16 → unhex_digit (nibble x) ≡ x
unfolding unhex_digit
unhex_digit-nibble x h = ground arith

-- Reading the hexadecimal text of bytes gives the bytes back.
pub unhex-lower_hex : (bytes : Bytes) → All (λ b. b < 256) bytes → unhex (lower_hex bytes) ≡ bytes
unfolding unhex lower_hex
unhex-lower_hex [] h = refl
unhex-lower_hex (b ∷ bs) h =
    rw
      (
        unhex_digit-nibble (b / 16) (omega arith),
        unhex_digit-nibble (b % 16) (omega arith),
        unhex-lower_hex bs h.1,
      )
      (let e : b / 16 * 16 + b % 16 ≡ b = omega arith in rw e)
