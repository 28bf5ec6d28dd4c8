-- ===== src/Wire/Inspection/Inspect.antt =====
-- crates/pask-wire/src/receipt_inspection.rs: `inspect` and `inspect_scitt_receipt`. The CBOR
-- reader and the parser of URIs are parameters.
use pask_workspace.Prelude.{
  ℕ, ℤ, leb, ◌&&◌, not, if◌then◌else◌, Bool, true, false, List, [], ◌∷◌, Option, none, some, String,
  Text, length, is_empty, is_some, Result, ok, err, guard,
}
use pask_workspace.Wire.Cbor.{Value, CborLibrary}
use pask_workspace.Wire.Cbor.Labels.{get, is_some_int}
use pask_workspace.Wire.Inspection.{
  Finding, Policy, policy_valid, Problem, structure_problem, policy_problem, claims_problem,
}
use pask_workspace.Wire.Inspection.Claims.{Map, Claims, inspect_claims, inspect_proof}
use pask_workspace.Wire.Inspection.Headers.{
  parsed, envelope_parts, bytes_or, map_or, overlap, effective, header_positions, critical_unknown,
  vdp_map, and_integer, proof_label, listed_proofs, other_proofs, support_for,
}
use pask_workspace.Wire.Inspection.Report.{
  Envelope, passed_finding, skipped_finding, later_finding, apply_problem, apply_fault,
}
use pask_workspace.Wire.Scan.Machine.{Fault, Scan, done, stop}
use pask_workspace.Wire.Scan.Roles.{Role}
use pask_workspace.Wire.Scan.Items.{scan}

-- The report, and the two fields of the budget that the scanner writes.
pub record State : Type 0 where
  pub report : Envelope
  pub items : ℕ
  pub x5t_invalid : Bool

-- A step changes the state also where it fails.
abbrev pub I : Type 0 → Type 0
I A = State → Result Fault A × State

abbrev pub and_then : {A B : Type 0} → Result Fault A × State → (A → I B) → Result Fault B × State
and_then (ok a, s) f = f a s
and_then (err e, s) f = (err e, s)

infixl 5 ◌>>=◌ ◌>>◌
abbrev pub ◌>>=◌ : {A B : Type 0} → I A → (A → I B) → I B
(m >>= f) s = and_then (m s) f

abbrev pub ◌>>◌ : {B : Type 0} → I (Unit {0}) → I B → I B
m >> k = m >>= λ _. k

abbrev pub lift : {A : Type 0} → Result Problem A → I A
lift (ok a) s = (ok a, s)
lift (err p) s = (err (Fault.problem p), s)

abbrev pub change : (Envelope → Envelope) → I (Unit {0})
change f s = (ok tt, record s { report = f s.report })

-- The scanner's result as a step on the state.
abbrev pub after_scan : Scan (Unit {0}) → I (Unit {0})
after_scan (done u r) s =
    (ok tt, record s { items = r.items; x5t_invalid = r.unprotected_x5t_invalid })
after_scan (stop fault n) s = (err fault, record s { items = n })

-- Sets the four findings and fields that a pass through the envelope gives.
abbrev pub set_bytes : List ℕ → Option (List ℕ) → List ℕ → Envelope → Envelope
set_bytes p m s report = record report {
  protected_bytes = some p;
  signature_bytes = some s;
  payload_bytes = m;
}

abbrev pub set_headers : Map → Envelope → Envelope
set_headers headers report = record report { effective_headers = headers }

abbrev pub set_structure : Envelope → Envelope
set_structure report = record report { structure = passed_finding }

-- The match on the claims' result.
abbrev pub set_claims : Result Problem Claims → Envelope → Envelope
set_claims (ok claims) report = record report {
  unauthenticated_claims = some claims;
  required_claims = passed_finding;
}
set_claims (err problem) report = apply_problem problem report

abbrev pub set_support : Option Finding → Envelope → Envelope
set_support none report = report
set_support (some finding) report = record report { support = finding }

abbrev pub apply_if : Bool → Problem → Envelope → Envelope
apply_if true problem report = apply_problem problem report
apply_if false problem report = report

module _ (cbor : CborLibrary) (uri : Text → Bool) (policy : Policy) where
  abbrev pub scanning : ℕ → Role → String → List ℕ → I (Unit {0})
  scanning depth role trailing bytes s =
      after_scan (scan bytes policy.limits s.items s.x5t_invalid depth role trailing) s

  -- One round of the loop over the proofs.
  unfoldable pub inspect_embedded : Value → I (Unit {0})
  inspect_embedded value = do
    bytes ← lift (bytes_or "proof_not_bstr" value)
    scanning 5 Role.proof "proof_trailing_data" bytes
    proof ← lift (parsed cbor bytes)
    lift (inspect_proof policy.limits proof)

  unfoldable pub inspect_proofs : List Value → I (Unit {0})
  inspect_proofs [] = λ s. (ok tt, s)
  inspect_proofs (proof ∷ proofs) = do inspect_embedded proof; inspect_proofs proofs

  -- The proofs where the structure is 1; the result is `proof_unknown`.
  unfoldable pub check_vdp : Map → Bool → I Bool
  check_vdp vdp false = λ s. (ok false, s)
  check_vdp vdp true = do
    proofs ← lift (listed_proofs policy.limits vdp (get vdp proof_label))
    inspect_proofs proofs
    λ s. (ok (other_proofs vdp), s)

  -- `raw_x5t_invalid`
  abbrev pub raw_x5t_invalid : Map → State → Bool
  raw_x5t_invalid p s = s.x5t_invalid && not (is_some (get p (ℤ.pos 34)))

  -- `claims_result`
  abbrev pub claims_result : Map → Map → Bool → Result Problem Claims
  claims_result p u invalid =
      if invalid then err (claims_problem "x5t_shape") else inspect_claims uri policy.limits p u

  -- From the passed structure on.
  unfoldable pub inspect_rest : Map → Map → Bool → Bool → I (Unit {0})
  inspect_rest p u unknown_label unknown_proof s =
      change
        (λ report.
          set_support
            (support_for policy.limits p u (raw_x5t_invalid p s) unknown_label unknown_proof
              (and_integer (get p (ℤ.pos 1))) (and_integer (get p (ℤ.pos 395))))
            (set_claims (claims_result p u (raw_x5t_invalid p s)) (set_structure report)))
        s

  -- From the two decoded maps on.
  unfoldable pub inspect_headers : Map → Map → I (Unit {0})
  inspect_headers p u = do
    lift (header_positions p u)
    change (apply_if (policy.strict_cross_map && overlap p u) (policy_problem "cross_map_overlap"))
    change (set_headers (effective p u))
    unknown_label ← lift (critical_unknown p (get p (ℤ.pos 2)))
    vdp ← lift (vdp_map u)
    unknown_proof ← check_vdp vdp (is_some_int (and_integer (get p (ℤ.pos 395))) (ℤ.pos 1))
    inspect_rest p u unknown_label unknown_proof

  -- From the protected bytes on.
  unfoldable pub inspect_protected : List ℕ → Map → I (Unit {0})
  inspect_protected bytes u = do
    lift (guard (not (is_empty bytes)) (structure_problem "protected_not_map"))
    scanning 2 Role.protected_map "protected_trailing_data" bytes
    protected ← lift (parsed cbor bytes)
    p ← lift (map_or "protected_not_map" protected)
    inspect_headers p u

  unfoldable pub inspect : List ℕ → I (Unit {0})
  inspect encoded = do
    lift (guard (policy_valid policy) (policy_problem "invalid_policy_limits"))
    lift (
        guard (leb (length encoded) policy.limits.max_receipt_bytes)
          (policy_problem "receipt_byte_limit"))
    scanning 0 Role.envelope "outer_trailing_data" encoded
    value ← lift (parsed cbor encoded)
    (p, u, m, s) ← lift (envelope_parts value)
    change (set_bytes p m s)
    inspect_protected p u

  -- The report and the budget before `inspect`.
  unfoldable pub initial : List ℕ → State
  initial encoded = record {
    report = record {
      encoded_receipt = encoded;
      protected_bytes = none;
      payload_bytes = none;
      signature_bytes = none;
      unauthenticated_claims = none;
      effective_headers = [];
      structure = skipped_finding;
      required_claims = skipped_finding;
      support = skipped_finding;
      selected_policy = passed_finding;
      policy_id = "pask71-local-ed25519-rfc9162/1";
      policy = policy;
      cbor_items_inspected = 0;
      ts_signature = later_finding;
      inclusion = later_finding;
      ts_identity_trust = later_finding;
      subject_policy = later_finding;
      application_policy = later_finding;
    };
    items = 0;
    x5t_invalid = false;
  }

  -- What the call of `inspect` leaves, as the report.
  unfoldable pub reported : Result Fault (Unit {0}) × State → Envelope
  reported (ok u, s) = record s.report { cbor_items_inspected = s.items }
  reported (err fault, s) = record (apply_fault fault s.report) { cbor_items_inspected = s.items }

  unfoldable pub inspect_scitt_receipt : List ℕ → Envelope
  inspect_scitt_receipt encoded = reported (inspect encoded (initial encoded))
