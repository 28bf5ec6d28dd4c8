-- ===== src/Wire/Inspection/Report.antt =====
-- crates/pask-wire/src/receipt_inspection.rs: findings, the report, and `apply_problem`.
use pask_workspace.Prelude.{ℕ, List, [], ◌∷◌, Option, String}
use pask_workspace.Wire.Inspection.{Status, Finding, Dimension, Problem, Policy}
use pask_workspace.Wire.Inspection.Claims.{Map, Claims}
use pask_workspace.Wire.Scan.Machine.{Fault}

-- InspectionFinding::new, passed, skipped and later
unfoldable pub new_finding : Status → String → String → Finding
new_finding status code detail = record {
  status = status;
  code = code;
  detail = detail;
  evidence_refs = "encoded_receipt" ∷ [];
}

unfoldable pub passed_finding : Finding
passed_finding =
    new_finding Status.passed "checked" "Passed only this inspection dimension; unauthenticated."

unfoldable pub skipped_finding : Finding
skipped_finding =
    new_finding Status.not_evaluated "dependent_check_not_run"
      "A prerequisite was not established; this is not a pass."

unfoldable pub later_finding : Finding
later_finding =
    new_finding Status.not_evaluated "outside_phase1"
      "Phase 1 does not evaluate cryptography, trust, subject correspondence or application acceptance."

-- EnvelopeReport; the policy's identifier is a constant.
pub record Envelope : Type 0 where
  pub encoded_receipt : List ℕ
  pub protected_bytes : Option (List ℕ)
  pub payload_bytes : Option (List ℕ)
  pub signature_bytes : Option (List ℕ)
  pub unauthenticated_claims : Option Claims
  pub effective_headers : Map
  pub structure : Finding
  pub required_claims : Finding
  pub support : Finding
  pub selected_policy : Finding
  pub policy_id : String
  pub policy : Policy
  pub cbor_items_inspected : ℕ
  pub ts_signature : Finding
  pub inclusion : Finding
  pub ts_identity_trust : Finding
  pub subject_policy : Finding
  pub application_policy : Finding

unfoldable pub problem_finding : Problem → Finding
problem_finding problem =
    new_finding Status.failed problem.code
      "Rejected in the named dimension; consult policy and exact input bytes."

-- The match on the dimension.
unfoldable pub place_finding : Dimension → Finding → Envelope → Envelope
place_finding Dimension.structure finding report = record report {
  structure = finding;
  required_claims = skipped_finding;
  support = skipped_finding;
}
place_finding Dimension.claims finding report = record report { required_claims = finding }
place_finding Dimension.policy finding report = record report { selected_policy = finding }

unfoldable pub apply_problem : Problem → Envelope → Envelope
apply_problem problem report = place_finding problem.dimension (problem_finding problem) report

-- `if let Err(problem) = …`; the scanner's fuel does not run out (Wire/Scan/Enough).
unfoldable pub apply_fault : Fault → Envelope → Envelope
apply_fault (Fault.problem problem) report = apply_problem problem report
apply_fault Fault.out_of_fuel report = report
