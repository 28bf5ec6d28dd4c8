-- ===== src/Wire/Scan/Machine.antt =====
-- The reader's state, and its steps as functions that return a value and the next state or stop.
-- A stop carries the number of items counted, which the budget outlives the reader with.
use pask_workspace.Prelude.{ℕ, Bool, true, false}
use pask_workspace.Wire.Inspection.{Problem, structure_problem, policy_problem}

-- `Reader`, with the two fields of its budget that it writes.
pub record Reader : Type 0 where
  pub pos : ℕ
  pub items : ℕ
  pub unprotected_x5t_invalid : Bool
  pub issuer_characters : ℕ
  pub subject_characters : ℕ
  pub x509 : Bool

-- A problem found, or the model's fuel used up.
pub data Fault : Type 0 where
  problem : Problem → Fault
  out_of_fuel : Fault

pub data Scan (A : Type 0) : Type 0 where
  done : A → Reader → Scan A
  stop : Fault → ℕ → Scan A

abbrev pub M : Type 0 → Type 0
M A = Reader → Scan A

abbrev pub and_then : {A B : Type 0} → Scan A → (A → M B) → Scan B
and_then (done a r) f = f a r
and_then (stop fault n) f = stop fault n

infixl 5 ◌>>=◌ ◌>>◌
abbrev pub ◌>>=◌ : {A B : Type 0} → M A → (A → M B) → M B
(m >>= f) r = and_then (m r) f

abbrev pub ◌>>◌ : {B : Type 0} → M (Unit {0}) → M B → M B
m >> k = m >>= λ _. k

abbrev pub pure : {A : Type 0} → A → M A
pure a r = done a r

abbrev pub fail : {A : Type 0} → Problem → M A
fail p r = stop (Fault.problem p) r.items

-- An early return with a problem where the test holds.
abbrev pub refuse_if : Bool → Problem → M (Unit {0})
refuse_if test p = elim test [ true ↦ fail p | false ↦ pure tt ]

abbrev pub invalid_cbor : Problem
invalid_cbor = structure_problem "invalid_cbor"

abbrev pub item_limit : Problem
item_limit = policy_problem "cbor_item_limit"
