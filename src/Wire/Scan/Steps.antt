-- ===== src/Wire/Scan/Steps.antt =====
-- What every step of the scanner keeps: the position in the input, the count within its limit.
use pask_workspace.Prelude.{
  ℕ, zero, suc, ◌+◌, ◌/◌, ◌%◌, ◌≤◌, ◌<◌, ◌≡◌, refl, arith, ltb, leb, ◌&&◌, ◌==◌, not, Bool, true,
  false, String, List, Option, none, some, length, get_elem?, if◌then◌else◌,
}
use pask_workspace.Wire.Inspection.{Limits, Problem, policy_problem}
use pask_workspace.Wire.Scan.Machine.{
  M, Reader, Fault, Scan, done, stop, ◌>>=◌, and_then, pure, refuse_if, invalid_cbor,
}
use pask_workspace.Wire.Scan.Utf8.{char_count}
use pask_workspace.Wire.Scan.Roles.{Role, check_role, mark_x5t}
use pask_workspace.Wire.Scan.Atoms.{
  Head, usize_end, be, definite, take_bytes, take_number, argument, is_break, characters_of, bump,
  start, chunk, chunks, string_body, count_claim, string_item,
}

abbrev pub is_problem : Fault → Bool
is_problem (Fault.problem p) = true
is_problem Fault.out_of_fuel = false

module _ (bytes : List ℕ) (limits : Limits) where
  abbrev pub IsGood : Reader → Type 0
  IsGood r = (r.pos ≤ length bytes) × (r.items ≤ limits.max_cbor_items)

  -- The step took `n` bytes at least and left the reader good, or stopped with a problem and a
  -- count that is at most one too many.
  abbrev pub Runs : {A : Type 0} → Reader → ℕ → Scan A → Type 0
  Runs r n (done a r') =
      (r.pos + n ≤ r'.pos) × (r'.pos ≤ length bytes) × (r'.items ≤ limits.max_cbor_items)
  Runs r n (stop fault items) = (is_problem fault ≡ true) × (items ≤ suc limits.max_cbor_items)

  pub Runs-and_then :
      {A B : Type 0} (r : Reader) (n k m : ℕ) (s : Scan A) (f : A → M B)
      → m ≤ n + k
      → Runs r n s
      → ((a : A) (r' : Reader) → r.pos + n ≤ r'.pos → IsGood r' → Runs r' k (f a r'))
      → Runs r m (and_then s f)
  Runs-and_then r n k m (stop fault items) f e h g = h
  Runs-and_then {B = B} r n k m (done a r') f e h g = later (f a r') (g a r' h.0 (h.1, h.2))
    where
      later : (s : Scan B) → Runs r' k s → Runs r m s
      later (stop fault items) h' = h'
      later (done b r'') h' = omega arith

  pub Runs-weak : {A : Type 0} (r : Reader) (n m : ℕ) (s : Scan A) → m ≤ n → Runs r n s → Runs r m s
  Runs-weak r n m (stop fault items) e h = h
  Runs-weak r n m (done a r') e h = omega arith

  pub pure-Runs : {A : Type 0} (a : A) (r : Reader) → IsGood r → Runs r 0 (pure a r)
  pure-Runs a r g = omega arith

  pub refuse_if-Runs : (b : Bool) (p : Problem) (r : Reader) → IsGood r → Runs r 0 (refuse_if b p r)
  refuse_if-Runs true p r g = (refl, omega arith)
  refuse_if-Runs false p r g = omega arith

  pub Runs-elim :
      {A : Type 0} (r : Reader) (n : ℕ) (b : Bool) (x y : Scan A)
      → (b ≡ true → Runs r n x)
      → (b ≡ false → Runs r n y)
      → Runs r n (elim b as (λ c. Scan A) [ true ↦ x | false ↦ y ])
  Runs-elim r n true x y f g = f refl
  Runs-elim r n false x y f g = g refl

  Runs-if :
      {A : Type 0} (r : Reader) (n : ℕ) (b : Bool) (x y : M A)
      → Runs r n (x r)
      → Runs r n (y r)
      → Runs r n ((if b then x else y) r)
  Runs-if r n true x y f g = f
  Runs-if r n false x y f g = g

  pub take_bytes-Runs : (n : ℕ) (r : Reader) → IsGood r → Runs r n (take_bytes bytes n r)
  unfolding take_bytes
  take_bytes-Runs n r g =
      Runs-elim r n (ltb (r.pos + n) usize_end && leb (r.pos + n) (length bytes)) _ _
        (λ e. ground arith) (λ e. (refl, omega arith))

  pub bump-Runs : (r : Reader) → IsGood r → Runs r 0 (bump bytes limits r)
  unfolding bump
  bump-Runs r g =
      Runs-elim r 0 (ltb (r.items + 1) usize_end) _ _
        (λ e.
          Runs-elim r 0 (leb (r.items + 1) limits.max_cbor_items) _ _ (λ f. ground arith)
            (λ f. (refl, omega arith)))
        (λ e. (refl, omega arith))

  -- A step that does so from every good reader.
  pub record IsStep {A : Type 0} (n : ℕ) (m : M A) : Type 0 where
    pub runs : (r : Reader) → IsGood r → Runs r n (m r)

  -- A step that accounts for the progress, and more steps; steps before the one that does.
  pub seq :
      {A B : Type 0} {n : ℕ} {m : M A} {f : A → M B}
      → IsStep n m
      → ((a : A) → IsStep 0 (f a))
      → IsStep n (m >>= f)
  seq {n = n} {m = m} {f = f} h g = record {
    runs = λ r good.
        Runs-and_then r n 0 n (m r) f (omega arith) (h.runs r good) (λ a r' p. (g a).runs r');
  }

  pub before :
      {A B : Type 0} {n : ℕ} {m : M A} {f : A → M B}
      → IsStep 0 m
      → ((a : A) → IsStep n (f a))
      → IsStep n (m >>= f)
  before {n = n} {m = m} {f = f} h g = record {
    runs = λ r good.
        Runs-and_then r 0 n n (m r) f (omega arith) (h.runs r good) (λ a r' p. (g a).runs r');
  }

  pub weak : {A : Type 0} {n : ℕ} {m : M A} → IsStep n m → IsStep 0 m
  weak {n = n} {m = m} h = record { runs = λ r g. Runs-weak r n 0 (m r) (omega arith) (h.runs r g) }

  pub pure-IsStep : {A : Type 0} (a : A) → IsStep 0 (pure a)
  pure-IsStep a = record { runs = pure-Runs a }

  pub refuse_if-IsStep : (b : Bool) (p : Problem) → IsStep 0 (refuse_if b p)
  refuse_if-IsStep b p = record { runs = refuse_if-Runs b p }

  pub take_bytes-IsStep : (n : ℕ) → IsStep n (take_bytes bytes n)
  take_bytes-IsStep n = record { runs = take_bytes-Runs n }

  bump-IsStep : IsStep 0 (bump bytes limits)
  bump-IsStep = record { runs = bump-Runs }

  take_number-IsStep : (n : ℕ) → IsStep 0 (take_number bytes n)
  unfolding take_number
  take_number-IsStep n = weak (seq (take_bytes-IsStep n) (λ part. pure-IsStep (some (be 0 part))))

  argument-Runs : (info : ℕ) (r : Reader) → IsGood r → Runs r 0 (argument bytes info r)
  unfolding argument
  argument-Runs info r g = Runs-if r 0 (ltb info 24) _ _ (pure-Runs (some info) r g) (
      Runs-if r 0 (info == 24) _ _ ((take_number-IsStep 1).runs r g) (
        Runs-if r 0 (info == 25) _ _ ((take_number-IsStep 2).runs r g) (
          Runs-if r 0 (info == 26) _ _ ((take_number-IsStep 4).runs r g) (
            Runs-if r 0 (info == 27) _ _ ((take_number-IsStep 8).runs r g) (
              Runs-if r 0 (info == 31) _ _ (pure-Runs {A = Option ℕ} none r g)
                (refl, omega arith))))))

  mark-Runs : (b : Bool) (r : Reader) → IsGood r → Runs r 0 (mark_x5t b r)
  mark-Runs true r g = omega arith
  mark-Runs false r g = omega arith

  check_role-Runs :
      (role : Role) (major : ℕ) (r : Reader) → IsGood r → Runs r 0 (check_role role major r)
  unfolding check_role
  check_role-Runs Role.header_label major r g = refuse_if-Runs _ _ r g
  check_role-Runs Role.claim_label major r g = refuse_if-Runs _ _ r g
  check_role-Runs Role.required_integer major r g = refuse_if-Runs _ _ r g
  check_role-Runs Role.critical_label major r g = refuse_if-Runs _ _ r g
  check_role-Runs Role.tree_size major r g = refuse_if-Runs _ _ r g
  check_role-Runs Role.leaf_index major r g = refuse_if-Runs _ _ r g
  check_role-Runs Role.thumbprint_algorithm major r g = refuse_if-Runs _ _ r g
  check_role-Runs Role.unprotected_thumbprint_algorithm major r g = mark-Runs _ r g
  check_role-Runs _ major r g = pure-Runs tt r g

  argument-IsStep : (info : ℕ) → IsStep 0 (argument bytes info)
  argument-IsStep info = record { runs = argument-Runs info }

  check_role-IsStep : (role : Role) (major : ℕ) → IsStep 0 (check_role role major)
  check_role-IsStep role major = record { runs = check_role-Runs role major }

  pub definite-IsStep : (o : Option ℕ) → IsStep 0 (definite o)
  definite-IsStep none = record { runs = λ r g. (refl, omega arith) }
  definite-IsStep (some n) = pure-IsStep n

  characters_of-IsStep :
      (is_text : Bool) (part : List ℕ) → IsStep 0 (characters_of bytes is_text part)
  unfolding characters_of
  characters_of-IsStep false part = pure-IsStep {A = ℕ} 0
  characters_of-IsStep true part = definite-IsStep (char_count part)

  -- The start of an item takes a byte.
  pub start-IsStep : (role : Role) → IsStep 1 (start bytes limits role)
  unfolding start
  start-IsStep role = before bump-IsStep (λ _. seq (take_bytes-IsStep 1) (λ head.
      seq (check_role-IsStep role (be 0 head / 32))
        (λ _. seq (argument-IsStep (be 0 head % 32)) (λ arg. pure-IsStep _))))

  chunk-IsStep :
      (is_text : Bool) (major limit : ℕ) (code : String) (total characters : ℕ)
      → IsStep 1 (chunk bytes limits is_text major limit code total characters)
  unfolding chunk
  chunk-IsStep is_text major limit code total characters = before bump-IsStep (λ _.
      seq (take_bytes-IsStep 1) (λ head.
        seq (refuse_if-IsStep (not (be 0 head / 32 == major)) invalid_cbor) (λ _.
          seq (argument-IsStep (be 0 head % 32)) (λ arg. seq (definite-IsStep arg) (λ len.
            seq (refuse_if-IsStep (not (ltb (total + len) usize_end)) (policy_problem code)) (λ _.
              seq (refuse_if-IsStep (ltb limit (total + len)) (policy_problem code)) (λ _.
                seq (weak (take_bytes-IsStep len)) (λ part.
                  seq (characters_of-IsStep is_text part) (λ n.
                    seq
                      (refuse_if-IsStep (not (ltb (characters + n) usize_end))
                        (policy_problem "claim_text_limit"))
                      (λ _. pure-IsStep (total + len, characters + n)))))))))))

  -- Fuel for the loop over the chunks: one round more than there are bytes left.
  chunks-Runs :
      (fuel : ℕ) (is_text : Bool) (major limit : ℕ) (code : String) (totals : ℕ × ℕ) (r : Reader)
      → IsGood r
      → length bytes < r.pos + fuel
      → Runs r 0 (chunks bytes limits fuel is_text major limit code totals r)
  unfolding chunks
  chunks-Runs zero is_text major limit code totals r g h = absurd (omega arith)
  chunks-Runs (suc fuel) is_text major limit code totals r g h =
      Runs-elim r 0 (is_break bytes (get_elem? bytes r.pos)) _ _
        (λ e. (weak (seq (take_bytes-IsStep 1) (λ b. pure-IsStep totals.1))).runs r g)
        (λ e.
          Runs-and_then r 1 0 0 (chunk bytes limits is_text major limit code totals.0 totals.1 r)
            (chunks bytes limits fuel is_text major limit code) (omega arith)
            ((chunk-IsStep is_text major limit code totals.0 totals.1).runs r g)
            (λ t r' p g'. chunks-Runs fuel is_text major limit code t r' g' (omega arith)))

  string_body-Runs :
      (fuel : ℕ) (is_text : Bool) (major limit : ℕ) (code : String) (o : Option ℕ) (r : Reader)
      → IsGood r
      → length bytes < r.pos + fuel
      → Runs r 0 (string_body bytes limits fuel is_text major limit code o r)
  unfolding string_body
  string_body-Runs fuel is_text major limit code none r g p =
      chunks-Runs fuel is_text major limit code (0, 0) r g p
  string_body-Runs fuel is_text major limit code (some len) r g p =
      (seq (refuse_if-IsStep (ltb limit len) (policy_problem code)) (λ _.
          seq (weak (take_bytes-IsStep len)) (λ part. characters_of-IsStep is_text part))).runs
        r g

  count_claim-IsStep : (role : Role) (n : ℕ) → IsStep 0 (count_claim bytes limits role n)
  unfolding count_claim
  count_claim-IsStep role n = record { runs = λ r g. omega arith }

  pub string_item-Runs :
      (fuel : ℕ) (role : Role) (is_text : Bool) (h : Head) (r : Reader)
      → IsGood r
      → length bytes < r.pos + fuel
      → Runs r 0 (string_item bytes limits fuel role is_text h r)
  unfolding string_item
  string_item-Runs fuel role is_text h r g p =
      Runs-and_then r 0 0 0 (string_body bytes limits fuel is_text h.major _ _ h.argument r) _
        (omega arith) (string_body-Runs fuel is_text h.major _ _ h.argument r g p)
        (λ n r' q. (count_claim-IsStep role n).runs r')
