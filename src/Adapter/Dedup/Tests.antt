-- ===== src/Adapter/Dedup/Tests.antt =====
-- Instances at concrete receipts.
use pask_workspace.Prelude.{◌≡◌, refl, arith, [], ◌∷◌, ascii}
use pask_workspace.Adapter.Dedup.{lower_hex}
use pask_workspace.Adapter.Dedup.Hex.{unhex, unhex-lower_hex}

lower_hex_example : lower_hex (0 ∷ 171 ∷ 255 ∷ []) ≡ ascii "00abff"
unfolding lower_hex
lower_hex_example = refl

unhex-lower_hex_example : unhex (lower_hex (0 ∷ 171 ∷ 255 ∷ [])) ≡ 0 ∷ 171 ∷ 255 ∷ []
unhex-lower_hex_example = unhex-lower_hex (0 ∷ 171 ∷ 255 ∷ []) (omega arith)
