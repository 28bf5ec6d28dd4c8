-- ===== src/Wire/Scan/Enough.antt =====
-- The scanner ends within its fuel, inside its input and its budget.
use pask_workspace.Prelude.{
  ℕ, ℤ, zero, suc, ◌+◌, ◌-◌, ◌≤◌, ◌<◌, ◌≡◌, refl, arith, leb, ◌&&◌, Bool, true, false, String, List,
  Option, none, some, length, get_elem?,
}
use pask_workspace.Wire.Inspection.{Limits, policy_problem}
use pask_workspace.Wire.Scan.Machine.{
  M, Reader, Scan, done, stop, ◌>>=◌, and_then, pure, refuse_if, invalid_cbor,
}
use pask_workspace.Wire.Scan.Roles.{Role, key_role, value_role, element_role, tag_role}
use pask_workspace.Wire.Scan.Atoms.{Head, is_break, definite, start, string_item}
use pask_workspace.Wire.Scan.Items.{
  Kind, kind, nests, room_for, is_last, is_indefinite, note_x509, simple_item, container_limit,
  check_count, entry_round, child, finish, item, children, check_end, scan,
}
use pask_workspace.Wire.Scan.Steps.{
  is_problem, IsGood, Runs, Runs-and_then, Runs-weak, Runs-elim, IsStep, seq, weak, pure-IsStep,
  pure-Runs, refuse_if-Runs, refuse_if-IsStep, take_bytes-IsStep, definite-IsStep, start-IsStep,
  string_item-Runs,
}

module _ (bytes : List ℕ) (limits : Limits) where
  room_for-IsStep :
      (is_map : Bool) (o : Option ℕ) (m : ℕ) → IsStep bytes limits 0 (room_for is_map o m)
  unfolding room_for
  room_for-IsStep is_map none m = record { runs = λ r g. omega arith }
  room_for-IsStep is_map (some n) m = record { runs = λ r g. refuse_if-Runs bytes limits _ _ r g }

  check_count-IsStep :
      (is_map : Bool) (role : Role) (o : Option ℕ)
      → IsStep bytes limits 0 (check_count bytes limits is_map role o)
  unfolding check_count
  check_count-IsStep is_map role o =
      seq bytes limits
        (refuse_if-IsStep bytes limits _
          (policy_problem (container_limit bytes limits is_map role).1))
        (λ _. room_for-IsStep is_map o limits.max_cbor_items)

  note_x509-IsStep : (role : Role) (key : Option ℤ) → IsStep bytes limits 0 (note_x509 role key)
  unfolding note_x509
  note_x509-IsStep role key = record { runs = λ r g. omega arith }

  -- A scanner of items that takes a byte at least wherever `left` bytes cover what is left.
  abbrev Covers : ℕ → (Role → M (Option ℤ)) → Type 0
  Covers left scan_item =
      (role : Role) (r : Reader)
      → IsGood bytes limits r
      → length bytes ≤ r.pos + left
      → Runs bytes limits r 1 (scan_item role r)

  child-Runs :
      (left : ℕ) (scan_item : Role → M (Option ℤ)) (is_map : Bool) (role : Role) (i : ℕ)
      (r : Reader)
      → Covers left scan_item
      → IsGood bytes limits r
      → length bytes ≤ r.pos + left
      → Runs bytes limits r 1 (child bytes limits scan_item is_map role i r)
  unfolding child entry_round
  child-Runs left scan_item false role i r c g p = c (element_role role i) r g p
  child-Runs left scan_item true role i r c g p =
      Runs-and_then bytes limits r 1 0 1 (scan_item (key_role role) r) _ (omega arith)
        (c (key_role role) r g p)
        (λ key r1 p1 g1.
          Runs-and_then bytes limits r1 0 0 0 (note_x509 role key r1) _ (omega arith)
            ((note_x509-IsStep role key).runs r1 g1)
            (λ _ r2 p2 g2.
              Runs-weak bytes limits r2 1 0 _ (omega arith)
                (c (value_role role key) r2 g2 (omega arith))))

  -- A loop that ends wherever `left` bytes cover what is left.
  abbrev Loops : ℕ → (Bool → Option ℕ → M (Unit {0})) → Type 0
  Loops left loop =
      (is_map : Bool) (o : Option ℕ) (r : Reader)
      → IsGood bytes limits r
      → length bytes ≤ r.pos + left
      → Runs bytes limits r 0 (loop is_map o r)

  container-Runs :
      (left : ℕ) (loop : Bool → Option ℕ → M (Unit {0})) (is_map : Bool) (role : Role)
      (o : Option ℕ) (r : Reader)
      → Loops left loop
      → IsGood bytes limits r
      → length bytes ≤ r.pos + left
      → Runs bytes limits r 0 (
          (check_count bytes limits is_map role o >>= λ _.
          loop is_map o >>= λ _. pure {A = Option ℤ} none)
            r)
  container-Runs left loop is_map role o r l g p =
      Runs-and_then bytes limits r 0 0 0 (check_count bytes limits is_map role o r) _ (omega arith)
        ((check_count-IsStep is_map role o).runs r g)
        (λ _ r1 p1 g1.
          Runs-and_then bytes limits r1 0 0 0 (loop is_map o r1) _ (omega arith)
            (l is_map o r1 g1 (omega arith))
            (λ _ r2 p2. pure-Runs bytes limits {A = Option ℤ} none r2))

  string-Runs :
      (fuel : ℕ) (role : Role) (is_text : Bool) (h : Head) (r : Reader)
      → IsGood bytes limits r
      → length bytes < r.pos + fuel
      → Runs bytes limits r 0
          ((string_item bytes limits fuel role is_text h >>= λ _. pure {A = Option ℤ} none) r)
  string-Runs fuel role is_text h r g p =
      Runs-and_then bytes limits r 0 0 0 (string_item bytes limits fuel role is_text h r) _
        (omega arith) (string_item-Runs bytes limits fuel role is_text h r g p)
        (λ _ r1 p1. pure-Runs bytes limits {A = Option ℤ} none r1)

  simple_item-IsStep : (h : Head) → IsStep bytes limits 0 (simple_item h)
  unfolding simple_item
  simple_item-IsStep h =
      seq bytes limits (refuse_if-IsStep bytes limits _ invalid_cbor)
        (λ _. pure-IsStep bytes limits {A = Option ℤ} none)

  finish-Runs :
      (fuel left : ℕ) (scan_item : Role → M (Option ℤ)) (loop : Bool → Option ℕ → M (Unit {0}))
      (role : Role) (h : Head) (k : Kind) (r : Reader)
      → Covers left scan_item
      → Loops left loop
      → IsGood bytes limits r
      → length bytes ≤ r.pos + left
      → length bytes < r.pos + fuel
      → Runs bytes limits r 0 (finish bytes limits fuel scan_item loop role h k r)
  unfolding finish
  finish-Runs fuel left scan_item loop role h Kind.unsigned r c l g p q =
      (seq bytes limits (definite-IsStep bytes limits h.argument)
          (λ n. pure-IsStep bytes limits (some (ℤ.pos n)))).runs
        r g
  finish-Runs fuel left scan_item loop role h Kind.negative r c l g p q =
      (seq bytes limits (definite-IsStep bytes limits h.argument)
          (λ n. pure-IsStep bytes limits (some (ℤ.negsuc n)))).runs
        r g
  finish-Runs fuel left scan_item loop role h Kind.byte_string r c l g p q =
      string-Runs fuel role false h r g q
  finish-Runs fuel left scan_item loop role h Kind.text_string r c l g p q =
      string-Runs fuel role true h r g q
  finish-Runs fuel left scan_item loop role h Kind.array r c l g p q =
      container-Runs left loop false role h.argument r l g p
  finish-Runs fuel left scan_item loop role h Kind.map r c l g p q =
      container-Runs left loop true role h.argument r l g p
  finish-Runs fuel left scan_item loop role h Kind.tag r c l g p q =
      Runs-and_then bytes limits r 0 0 0 (definite h.argument r) _ (omega arith)
        ((definite-IsStep bytes limits h.argument).runs r g)
        (λ n r1 p1 g1.
          Runs-and_then bytes limits r1 1 0 0 (scan_item (tag_role role n) r1) _ (omega arith)
            (c (tag_role role n) r1 g1 (omega arith))
            (λ _ r2 p2. pure-Runs bytes limits {A = Option ℤ} none r2))
  finish-Runs fuel left scan_item loop role h Kind.simple r c l g p q =
      (simple_item-IsStep h).runs r g

  mutual
    unfolding item children

    -- With two rounds of fuel for each byte left, and one more, an item ends by its own tests.
    pub item-Runs :
        (fuel left depth : ℕ) (role : Role) (r : Reader)
        → left + left < fuel
        → IsGood bytes limits r
        → length bytes ≤ r.pos + left
        → Runs bytes limits r 1 (item bytes limits fuel depth role r)
    item-Runs zero left depth role r h g p = absurd (omega arith)
    item-Runs (suc fuel) zero depth role r h g p =
        Runs-and_then bytes limits r 1 0 1 (start bytes limits role r) _ (omega arith)
          ((start-IsStep bytes limits role).runs r g) (λ hd r1 p1 g1. absurd (omega arith))
    item-Runs (suc fuel) (suc left) depth role r h g p =
        Runs-and_then bytes limits r 1 0 1 (start bytes limits role r) _ (omega arith)
          ((start-IsStep bytes limits role).runs r g)
          (λ hd r1 p1 g1.
            Runs-and_then bytes limits r1 0 0 0
              (refuse_if (nests (kind hd.major) && leb limits.max_cbor_nesting depth)
                (policy_problem "cbor_nesting_limit") r1)
              _ (omega arith) (refuse_if-Runs bytes limits _ _ r1 g1)
              (λ _ r2 p2 g2.
                finish-Runs fuel left (item bytes limits fuel (depth + 1))
                  (λ is_map count. children bytes limits fuel (depth + 1) role is_map count 0) role
                  hd (kind hd.major) r2
                  (λ ro r' g' p'. item-Runs fuel left (depth + 1) ro r' (omega arith) g' p')
                  (λ is_map count r' g' p'.
                    children-Runs fuel left (depth + 1) role is_map count 0 r' (omega arith) g' p')
                  g2 (omega arith) (omega arith)))

    pub children-Runs :
        (fuel left depth : ℕ) (role : Role) (is_map : Bool) (count : Option ℕ) (i : ℕ) (r : Reader)
        → suc (left + left) < fuel
        → IsGood bytes limits r
        → length bytes ≤ r.pos + left
        → Runs bytes limits r 0 (children bytes limits fuel depth role is_map count i r)
    children-Runs zero left depth role is_map count i r h g p = absurd (omega arith)
    children-Runs (suc fuel) left depth role is_map count i r h g p =
        Runs-elim bytes limits r 0 (is_last count i) _ _ (λ e. omega arith)
          (λ e.
            Runs-elim bytes limits r 0
              (is_indefinite count && is_break bytes (get_elem? bytes r.pos)) _ _
              (λ e2.
                (weak bytes limits (
                    seq bytes limits (take_bytes-IsStep bytes limits 1)
                      (λ b. pure-IsStep bytes limits tt))).runs
                  r g)
              (λ e2.
                Runs-elim bytes limits r 0 (leb (container_limit bytes limits is_map role).0 i) _ _
                  (λ e3. (refl, omega arith))
                  (λ e3.
                    Runs-and_then bytes limits r 1 0 0
                      (child bytes limits (item bytes limits fuel depth) is_map role i r) _
                      (omega arith)
                      (child-Runs left (item bytes limits fuel depth) is_map role i r
                        (λ ro r' g' p'. item-Runs fuel left depth ro r' (omega arith) g' p') g p)
                      (λ _ r1 p1 g1.
                        children-Runs fuel (left - 1) depth role is_map count (suc i) r1
                          (omega arith) g1 (omega arith)))))

  -- What a scan comes to: it used up its input within the limits, or it found a problem; the count
  -- of items passes the limit by one at most.
  abbrev pub Ends : Scan (Unit {0}) → Type 0
  Ends (done u r) =
      (r.pos ≡ length bytes)
      × (r.items ≤ limits.max_cbor_items)
      × (r.issuer_characters ≤ limits.max_claim_text_characters)
      × (r.subject_characters ≤ limits.max_claim_text_characters)
      × (r.x509 ≡ true → r.issuer_characters ≤ 8192)
  Ends (stop fault n) = (is_problem fault ≡ true) × (n ≤ suc limits.max_cbor_items)

  check_end-Ends :
      (trailing : String) (r : Reader)
      → IsGood bytes limits r
      → Ends (check_end bytes limits trailing r)
  unfolding check_end
  check_end-Ends trailing r g = ground arith

  item-Ends :
      (trailing : String) (r : Reader) (s : Scan (Option ℤ))
      → Runs bytes limits r 1 s
      → Ends (and_then s (λ key. check_end bytes limits trailing))
  item-Ends trailing r (stop fault n) h = h
  item-Ends trailing r (done key r') h = check_end-Ends trailing r' (h.1, h.2)

  -- A scan always ends by its own tests, whatever the bytes: it accepts them having read all of
  -- them with items and claim texts within their limits, or it reports a problem, having counted
  -- one item too many at most. Its fuel never runs out.
  pub scan-Ends :
      (counted depth : ℕ) (x5t_invalid : Bool) (role : Role) (trailing : String)
      → counted ≤ limits.max_cbor_items
      → Ends (scan bytes limits counted x5t_invalid depth role trailing)
  unfolding scan
  scan-Ends counted depth x5t_invalid role trailing h =
      let r : Reader = record {
        pos = 0;
        items = counted;
        unprotected_x5t_invalid = x5t_invalid;
        issuer_characters = 0;
        subject_characters = 0;
        x509 = false;
      } in
      let fuel = suc (length bytes + length bytes) in
      item-Ends trailing r (item bytes limits fuel depth role r)
        (item-Runs fuel (length bytes) depth role r (omega arith) (omega arith) (omega arith))
