-- ===== src/Wire/Inspection/Triples.antt =====
-- Hoare triples of the steps of an inspection, on the report and on the count of items.
use pask_workspace.Prelude.{ℕ, suc, ◌≡◌, ◌≤◌, refl, arith, true, List, String, Result, ok, err}
use pask_workspace.Wire.Inspection.{Limits, Problem}
use pask_workspace.Wire.Inspection.Report.{Envelope}
use pask_workspace.Wire.Inspection.Inspect.{State, I, and_then, lift, change, after_scan}
use pask_workspace.Wire.Scan.Machine.{Fault, Scan, done, stop}
use pask_workspace.Wire.Scan.Steps.{is_problem}
use pask_workspace.Wire.Scan.Roles.{Role}
use pask_workspace.Wire.Scan.Items.{scan}
use pask_workspace.Wire.Scan.Enough.{Ends, scan-Ends}

module _ (J : Envelope → Type 0) (limits : Limits) where
  -- The report is as asked, and the count of items within its limit.
  abbrev pub Holds : State → Type 0
  Holds s = J s.report × (s.items ≤ limits.max_cbor_items)

  -- After a return both hold; after a problem the count is one too many at most.
  abbrev pub After : {A : Type 0} → Result Fault A × State → Type 0
  After (ok a, s) = Holds s
  After (err fault, s) =
      J s.report × (is_problem fault ≡ true) × (s.items ≤ suc limits.max_cbor_items)

  pub record Keeps {A : Type 0} (m : I A) : Type 0 where
    pub after : (s : State) → Holds s → After (m s)

  and_then-After :
      {A B : Type 0} (r : Result Fault A × State) (f : A → I B)
      → After r
      → ((a : A) → Keeps (f a))
      → After (and_then r f)
  and_then-After (ok a, s) f h k = (k a).after s h
  and_then-After (err e, s) f h k = h

  pub seq :
      {A B : Type 0} {m : I A} {f : A → I B}
      → Keeps m
      → ((a : A) → Keeps (f a))
      → Keeps (λ s. and_then (m s) f)
  seq {m = m} {f = f} h k = record { after = λ s p. and_then-After (m s) f (h.after s p) k }

  pub lift-Keeps : {A : Type 0} (r : Result Problem A) → Keeps (lift r)
  lift-Keeps (ok a) = record { after = λ s h. h }
  lift-Keeps (err p) = record { after = λ s h. (h.0, refl, omega arith) }

  pub return-Keeps : {A : Type 0} (a : A) → Keeps (λ s. (ok a, s))
  return-Keeps a = record { after = λ s h. h }

  pub change-Keeps : (f : Envelope → Envelope) → ((r : Envelope) → J r → J (f r)) → Keeps (change f)
  change-Keeps f k = record { after = λ s h. (k s.report h.0, h.1) }

  after_scan-After :
      (bytes : List ℕ) (r : Scan (Unit {0})) (s : State)
      → Ends bytes limits r
      → J s.report
      → After (after_scan r s)
  after_scan-After bytes (done u r) s e j = (j, e.1)
  after_scan-After bytes (stop fault n) s e j = (j, e.0, e.1)

  pub scan-Keeps :
      (depth : ℕ) (role : Role) (trailing : String) (bytes : List ℕ)
      → Keeps (λ s. after_scan (scan bytes limits s.items s.x5t_invalid depth role trailing) s)
  scan-Keeps depth role trailing bytes = record {
    after = λ s h.
        after_scan-After bytes (scan bytes limits s.items s.x5t_invalid depth role trailing) s
          (scan-Ends bytes limits s.items depth s.x5t_invalid role trailing h.1) h.0;
  }
