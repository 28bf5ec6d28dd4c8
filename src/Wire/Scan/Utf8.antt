-- ===== src/Wire/Scan/Utf8.antt =====
-- The number of characters of a UTF-8 text: `core::str::from_utf8(…)` and `chars().count()`.
use pask_workspace.Prelude.{
  ℕ, zero, suc, leb, ◌&&◌, if◌then◌else◌, Bool, List, [], ◌∷◌, Option, none, some,
}

abbrev in_range : ℕ → ℕ → ℕ → Bool
in_range low high b = leb low b && leb b high

-- What a leading byte asks for: the continuation bytes to come and the range of the first.
abbrev pub lead : ℕ → Option (ℕ × ℕ × ℕ)
lead b =
    if leb b 127
    then some (0, 0, 0)
    else if in_range 194 223 b
    then some (1, 128, 191)
    else if in_range 224 224 b
    then some (2, 160, 191)
    else if in_range 225 236 b
    then some (2, 128, 191)
    else if in_range 237 237 b
    then some (2, 128, 159)
    else if in_range 238 239 b
    then some (2, 128, 191)
    else if in_range 240 240 b
    then some (3, 144, 191)
    else if in_range 241 243 b
    then some (3, 128, 191)
    else if in_range 244 244 b
    then some (3, 128, 143)
    else none

-- `pending` continuation bytes are due, the first of them between `low` and `high`.
unfoldable pub utf8_count : ℕ → ℕ → ℕ → ℕ → List ℕ → Option ℕ
utf8_count zero low high count [] = some count
utf8_count (suc pending) low high count [] = none
utf8_count zero low high count (b ∷ bs) = elim (lead b) [
  | none ↦ none
  | some (pending, low', high') ↦ utf8_count pending low' high' (suc count) bs
]
utf8_count (suc pending) low high count (b ∷ bs) =
    let rest = utf8_count pending 128 191 count bs in if in_range low high b then rest else none

unfoldable pub char_count : List ℕ → Option ℕ
char_count bytes = utf8_count 0 0 0 0 bytes
