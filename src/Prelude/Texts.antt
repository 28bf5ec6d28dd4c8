-- ===== src/Prelude/Texts.antt =====
-- Rust's strings: the list of their UTF-8 bytes. `ascii` spells an ASCII literal so.
use Prim.Native.Nat.{ℕ}
use Prim.Native.Char.{code}
use Prim.Native.String.{String}
use mathlib.Core.Path.{◌≡◌, refl}
use mathlib.Core.Bool.{Bool, true, false}
use mathlib.Core.Option.{Option, none, some}
use mathlib.Core.List.{List, [], ◌∷◌, ◌++◌}
use native.Mathlib.Omega.{arith}
use pask_workspace.Prelude.Tests.{◌==◌, if◌then◌else◌}

abbrev pub Text : Type 0
Text = List ℕ

abbrev pub ascii : String → Text
ascii String.[] = []
ascii (String.◌∷◌ c s) = code c ∷ ascii s

-- `text.strip_prefix(prefix)`
abbrev pub strip_prefix : Text → Text → Option Text
strip_prefix [] text = some text
strip_prefix (p ∷ ps) [] = none
strip_prefix (p ∷ ps) (c ∷ text) = let rest = strip_prefix ps text in if p == c then rest else none

-- `text.ends_with(c)` for one ASCII character.
abbrev pub ends_with : ℕ → Text → Bool
ends_with c [] = false
ends_with c (x ∷ []) = x == c
ends_with c (x ∷ y ∷ text) = ends_with c (y ∷ text)

-- What `format!` puts together.
abbrev pub concat : List Text → Text
concat [] = []
concat (x ∷ xs) = x ++ concat xs

abbrev pub is_empty {ℓ} : {A : Type ℓ} → List A → Bool
is_empty [] = true
is_empty (x ∷ xs) = false

-- A stripped prefix was there.
pub strip_prefix-append : (p t rest : Text) → strip_prefix p t ≡ some rest → t ≡ p ++ rest
strip_prefix-append [] t rest e = cc
strip_prefix-append (p ∷ ps) [] rest e = cc
strip_prefix-append (p ∷ ps) (c ∷ t) rest e = ground (arith, strip_prefix-append ps t rest)

pub strip_prefix_self : (p rest : Text) → strip_prefix p (p ++ rest) ≡ some rest
strip_prefix_self [] rest = refl
strip_prefix_self (p ∷ ps) rest = ground (arith, strip_prefix_self ps rest)
