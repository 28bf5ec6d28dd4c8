-- ===== src/Wire/Merkle/Steps.antt =====
-- One round of the loop of `walk`.
use pask_workspace.Prelude.{
  ℕ, zero, suc, ◌+◌, ◌*◌, ◌/◌, ◌%◌, ◌^◌, ◌<◌, ◌≡◌, ◌⊎◌, inl, inr, refl, sym, subst, arith, pow-suc,
}
use pask_workspace.Wire.Merkle.{Bytes, skip_levels, sibling_is_left, climb, combine, node_hash}

-- `n >> k`, by halves.
abbrev pub shifted : ℕ → ℕ → ℕ
shifted zero n = n
shifted (suc k) n = shifted k (n / 2)

-- The test that ends the inner loop.
abbrev pub IsOddOrZero : ℕ → Type 0
IsOddOrZero n = (n % 2 ≡ 1) ⊎ (n ≡ 0)

-- `result` is both indices shifted by the least positive number of levels that makes the node index
-- odd or zero.
pub record IsLeastShift (n l : ℕ) (result : ℕ × ℕ) : Type 0 where
  pub levels : ℕ
  pub positive : 0 < levels
  pub node : result.0 ≡ shifted levels n
  pub last : result.1 ≡ shifted levels l
  pub stops : IsOddOrZero (shifted levels n)
  pub least : (k : ℕ) → 0 < k → k < levels → ¬ IsOddOrZero (shifted k n)

skip_levels-stop :
    (fuel n l : ℕ) → IsOddOrZero (n / 2) → skip_levels (suc fuel) n l ≡ (n / 2, l / 2)
unfolding skip_levels
skip_levels-stop fuel n l h = ground arith

skip_levels-shift :
    (fuel n l : ℕ)
    → ¬ IsOddOrZero (n / 2)
    → skip_levels (suc fuel) n l ≡ skip_levels fuel (n / 2) (l / 2)
unfolding skip_levels
skip_levels-shift fuel n l h = ground arith

odd_or_zero : (n : ℕ) → IsOddOrZero n ⊎ (¬ IsOddOrZero n)
odd_or_zero n = ground arith

IsLeastShift-suc :
    (n l : ℕ) (result : ℕ × ℕ)
    → ¬ IsOddOrZero (n / 2)
    → IsLeastShift (n / 2) (l / 2) result
    → IsLeastShift n l result
IsLeastShift-suc n l result h r = record {
  levels = suc r.levels;
  positive = omega arith;
  node = r.node;
  last = r.last;
  stops = r.stops;
  least = least;
}
  where
    least : (k : ℕ) → 0 < k → k < suc r.levels → ¬ IsOddOrZero (shifted k n)
    least zero p q = absurd (omega arith)
    least (suc zero) p q = h
    least (suc (suc k)) p q = r.least (suc k) (omega arith) (omega arith)

-- With more fuel than the node index the inner loop ends by its own test, at the first level where it
-- holds: both indices are shifted by the same number of levels, at least one, the node index is then
-- odd or zero, and after no smaller number of levels, from one on, is it odd or zero.
pub skip_levels_stops : (fuel n l : ℕ) → n < fuel → IsLeastShift n l (skip_levels fuel n l)
skip_levels_stops zero n l h = absurd (omega arith)
skip_levels_stops (suc fuel) n l h = elim (odd_or_zero (n / 2)) [
  | inl stop ↦ subst (IsLeastShift n l) (sym (skip_levels-stop fuel n l stop)) (record {
    levels = 1;
    positive = omega arith;
    node = refl;
    last = refl;
    stops = stop;
    least = λ k p q. absurd (omega arith);
  })
  | inr more ↦
      subst (IsLeastShift n l) (sym (skip_levels-shift fuel n l more))
        (IsLeastShift-suc n l _ more (skip_levels_stops fuel (n / 2) (l / 2) (ground arith)))
]

pub mul-pow_suc : (a j : ℕ) → a * 2 ^ suc j ≡ 2 * (a * 2 ^ j)
mul-pow_suc a j = rw pow-suc (omega arith)

pub mul-pow_pos : (a j : ℕ) → 0 < a → 0 < a * 2 ^ j
mul-pow_pos a zero h = omega arith
mul-pow_pos a (suc j) h = rw mul-pow_suc (omega (arith, mul-pow_pos a j h))

-- On equal indices it takes out every factor of two.
skip_levels-odd :
    (j fuel q n : ℕ)
    → n ≡ (2 * q + 1) * 2 ^ suc j
    → n < fuel
    → skip_levels fuel n n ≡ (2 * q + 1, 2 * q + 1)
unfolding skip_levels
skip_levels-odd j zero q n e h = absurd (omega arith)
skip_levels-odd zero (suc fuel) q n e h = ground arith
skip_levels-odd (suc j) (suc fuel) q n e h = ground (
  arith,
  mul-pow_suc (2 * q + 1) (suc j),
  mul-pow_suc (2 * q + 1) j,
  mul-pow_pos (2 * q + 1) j,
  skip_levels-odd j fuel q (n / 2),
)

-- A node that is not the last of its level: the state moves to its parent.
pub climb-inner :
    (q s n l b c : ℕ) → q < s → b < 2 → c < 2 → n ≡ 2 * q + b → l ≡ 2 * s + c → climb n l ≡ (q, s)
unfolding climb sibling_is_left
climb-inner q s n l b c h hb hc en el = ground arith

-- The last node of its level, and a right child: it skips the levels where it has no sibling.
pub climb-last : (j q n : ℕ) → n ≡ (2 * q + 1) * 2 ^ j → climb n n ≡ (q, q)
unfolding climb sibling_is_left
climb-last zero q n e = ground arith
climb-last (suc j) q n e = ground (
  arith,
  mul-pow_suc (2 * q + 1) j,
  mul-pow_pos (2 * q + 1) j,
  skip_levels-odd j (suc n) q n e (omega arith),
)

-- The last node of its level, and a left child below a sibling that is last.
pub climb-before_last : (q n l : ℕ) → n ≡ 2 * q → l ≡ 2 * q + 1 → climb n l ≡ (q, q)
unfolding climb sibling_is_left
climb-before_last q n l e f = ground arith

module _ (sha256 : Bytes → Bytes) where
  pub combine-right_sibling :
      (q n l : ℕ) (sib root : Bytes)
      → n ≡ 2 * q
      → n < l
      → combine sha256 n l sib root ≡ node_hash sha256 root sib
  unfolding combine sibling_is_left
  combine-right_sibling q n l sib root e h = ground arith

  pub combine-left_sibling :
      (q n l : ℕ) (sib root : Bytes)
      → n ≡ 2 * q + 1
      → combine sha256 n l sib root ≡ node_hash sha256 sib root
  unfolding combine sibling_is_left
  combine-left_sibling q n l sib root e = ground arith

  pub combine-last :
      (n : ℕ) (sib root : Bytes) → combine sha256 n n sib root ≡ node_hash sha256 sib root
  unfolding combine sibling_is_left
  combine-last n sib root = ground arith
