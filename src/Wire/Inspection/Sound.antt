-- ===== src/Wire/Inspection/Sound.antt =====
-- What every report of an inspection keeps, whatever the bytes.
use pask_workspace.Prelude.{
  ℕ, suc, ◌≡◌, ◌≤◌, refl, ap, arith, Bool, true, false, List, [], ◌∷◌, Option, none, some, String,
  Text, Result, ok, err, ℤ, leb, ◌&&◌, not, length, is_empty, guard,
}
use pask_workspace.Wire.Cbor.{Value, CborLibrary}
use pask_workspace.Wire.Cbor.Labels.{get, is_some_int}
use pask_workspace.Wire.Scan.Roles.{Role}
use pask_workspace.Wire.Inspection.{
  Finding, Policy, Problem, Dimension, policy_problem, structure_problem, policy_valid,
}
use pask_workspace.Wire.Inspection.Claims.{
  Map, Claims, inspect_claims, inspect_proof, claims_of_texts, checked_claims,
}
use pask_workspace.Wire.Inspection.Headers.{
  parsed, envelope_parts, bytes_or, map_or, overlap, effective, header_positions, critical_unknown,
  vdp_map, and_integer, proof_label, listed_proofs, other_proofs,
}
use pask_workspace.Wire.Inspection.Report.{
  Envelope, later_finding, problem_finding, place_finding, apply_problem, apply_fault,
}
use pask_workspace.Wire.Inspection.Inspect.{
  State, I, and_then, scanning, lift, change, set_bytes, set_headers, set_structure, set_claims,
  set_support, apply_if, inspect_embedded, inspect_proofs, check_vdp, inspect_rest, raw_x5t_invalid,
  claims_result, inspect_headers, inspect_protected, inspect, initial, reported,
  inspect_scitt_receipt,
}
use pask_workspace.Wire.Inspection.Triples.{
  After, Keeps, seq, lift-Keeps, return-Keeps, change-Keeps, scan-Keeps,
}
use pask_workspace.Wire.Scan.Machine.{Fault}

abbrev pub authenticated_claims : Option Claims → Bool
authenticated_claims none = false
authenticated_claims (some claims) = claims.authenticated

-- What no step changes: the input, whether claims count as authenticated, and five dimensions.
abbrev pub fixed_parts : Envelope → List ℕ × Bool × Finding × Finding × Finding × Finding × Finding
fixed_parts r = (
  r.encoded_receipt,
  authenticated_claims r.unauthenticated_claims,
  r.ts_signature,
  r.inclusion,
  r.ts_identity_trust,
  r.subject_policy,
  r.application_policy,
)

abbrev pub IsUnauthenticated : List ℕ → Envelope → Type 0
IsUnauthenticated encoded r =
    fixed_parts r
    ≡ (encoded, false, later_finding, later_finding, later_finding, later_finding, later_finding)

module _ (encoded : List ℕ) where
  place_finding-IsUnauthenticated :
      (d : Dimension) (f : Finding) (r : Envelope)
      → IsUnauthenticated encoded r
      → IsUnauthenticated encoded (place_finding d f r)
  unfolding place_finding
  place_finding-IsUnauthenticated Dimension.structure f r h = h
  place_finding-IsUnauthenticated Dimension.claims f r h = h
  place_finding-IsUnauthenticated Dimension.policy f r h = h

  apply_problem-IsUnauthenticated :
      (p : Problem) (r : Envelope)
      → IsUnauthenticated encoded r
      → IsUnauthenticated encoded (apply_problem p r)
  unfolding apply_problem
  apply_problem-IsUnauthenticated p r h =
      place_finding-IsUnauthenticated p.dimension (problem_finding p) r h

  apply_if-IsUnauthenticated :
      (test : Bool) (p : Problem) (r : Envelope)
      → IsUnauthenticated encoded r
      → IsUnauthenticated encoded (apply_if test p r)
  apply_if-IsUnauthenticated true p r h = apply_problem-IsUnauthenticated p r h
  apply_if-IsUnauthenticated false p r h = h

  set_support-IsUnauthenticated :
      (o : Option Finding) (r : Envelope)
      → IsUnauthenticated encoded r
      → IsUnauthenticated encoded (set_support o r)
  set_support-IsUnauthenticated none r h = h
  set_support-IsUnauthenticated (some finding) r h = h

  set_claims-IsUnauthenticated :
      (c : Result Problem (Text × Text)) (r : Envelope)
      → IsUnauthenticated encoded r
      → IsUnauthenticated encoded (set_claims (claims_of_texts c) r)
  unfolding claims_of_texts
  set_claims-IsUnauthenticated (ok texts) r h =
      ap (λ parts. (parts.0, false, parts.2, parts.3, parts.4, parts.5, parts.6)) h
  set_claims-IsUnauthenticated (err problem) r h = apply_problem-IsUnauthenticated problem r h

  module _ (cbor : CborLibrary) (uri : Text → Bool) (policy : Policy) where
    claims_result-IsUnauthenticated :
        (p u : Map) (invalid : Bool) (r : Envelope)
        → IsUnauthenticated encoded r
        → IsUnauthenticated encoded (set_claims (claims_result cbor uri policy p u invalid) r)
    unfolding inspect_claims
    claims_result-IsUnauthenticated p u true r h = apply_problem-IsUnauthenticated _ r h
    claims_result-IsUnauthenticated p u false r h =
        set_claims-IsUnauthenticated (checked_claims uri policy.limits p u) r h

    abbrev Sound : {A : Type 0} → I A → Type 0
    Sound m = Keeps (IsUnauthenticated encoded) policy.limits m

    lifted : {A : Type 0} (r : Result Problem A) → Sound (lift r)
    lifted r = lift-Keeps (IsUnauthenticated encoded) policy.limits r

    scanned :
        (depth : ℕ) (role : Role) (trailing : String) (bytes : List ℕ)
        → Sound (scanning cbor uri policy depth role trailing bytes)
    scanned depth role trailing bytes =
        scan-Keeps (IsUnauthenticated encoded) policy.limits depth role trailing bytes

    first :
        {A B : Type 0} {m : I A} {f : A → I B}
        → Sound m
        → ((a : A) → Sound (f a))
        → Sound (λ s. and_then (m s) f)
    first h k = seq (IsUnauthenticated encoded) policy.limits h k

    inspect_embedded-Sound : (value : Value) → Sound (inspect_embedded cbor uri policy value)
    unfolding inspect_embedded
    inspect_embedded-Sound value = first (lifted (bytes_or "proof_not_bstr" value)) (λ bytes.
        first (scanned 5 Role.proof "proof_trailing_data" bytes) (λ done.
          first (lifted (parsed cbor bytes)) (λ proof. lifted (inspect_proof policy.limits proof))))

    inspect_proofs-Sound : (proofs : List Value) → Sound (inspect_proofs cbor uri policy proofs)
    unfolding inspect_proofs
    inspect_proofs-Sound [] = return-Keeps (IsUnauthenticated encoded) policy.limits tt
    inspect_proofs-Sound (proof ∷ proofs) =
        first (inspect_embedded-Sound proof) (λ done. inspect_proofs-Sound proofs)

    check_vdp-Sound : (vdp : Map) (one : Bool) → Sound (check_vdp cbor uri policy vdp one)
    unfolding check_vdp
    check_vdp-Sound vdp false = return-Keeps (IsUnauthenticated encoded) policy.limits false
    check_vdp-Sound vdp true =
        first (lifted (listed_proofs policy.limits vdp (get vdp proof_label))) (λ proofs.
          first (inspect_proofs-Sound proofs)
            (λ done. return-Keeps (IsUnauthenticated encoded) policy.limits (other_proofs vdp)))

    inspect_rest-Sound :
        (p u : Map) (label proof : Bool) → Sound (inspect_rest cbor uri policy p u label proof)
    unfolding inspect_rest
    inspect_rest-Sound p u label proof = record {
      after = λ s h. (
        set_support-IsUnauthenticated _ _ (
            claims_result-IsUnauthenticated p u (raw_x5t_invalid cbor uri policy p s)
              (set_structure s.report) h.0),
        h.1,
      );
    }

    changed :
        (f : Envelope → Envelope)
        → ((r : Envelope) → IsUnauthenticated encoded r → IsUnauthenticated encoded (f r))
        → Sound (change f)
    changed f k = change-Keeps (IsUnauthenticated encoded) policy.limits f k

    inspect_headers-Sound : (p u : Map) → Sound (inspect_headers cbor uri policy p u)
    unfolding inspect_headers
    inspect_headers-Sound p u = first (lifted (header_positions p u)) (λ done.
        first
          (changed
            (apply_if (policy.strict_cross_map && overlap p u) (policy_problem "cross_map_overlap"))
            (apply_if-IsUnauthenticated _ _))
          (λ done. first (changed (set_headers (effective p u)) (λ r h. h)) (λ done.
            first (lifted (critical_unknown p (get p (ℤ.pos 2)))) (λ label.
              first (lifted (vdp_map u)) (λ vdp.
                first
                  (check_vdp-Sound vdp (is_some_int (and_integer (get p (ℤ.pos 395))) (ℤ.pos 1)))
                  (λ proof. inspect_rest-Sound p u label proof))))))

    inspect_protected-Sound :
        (bytes : List ℕ) (u : Map) → Sound (inspect_protected cbor uri policy bytes u)
    unfolding inspect_protected
    inspect_protected-Sound bytes u =
        first (lifted (guard (not (is_empty bytes)) (structure_problem "protected_not_map")))
          (λ done. first (scanned 2 Role.protected_map "protected_trailing_data" bytes) (λ done.
            first (lifted (parsed cbor bytes)) (λ value.
              first (lifted (map_or "protected_not_map" value)) (λ p. inspect_headers-Sound p u))))

    inspect-Sound : (bytes : List ℕ) → Sound (inspect cbor uri policy bytes)
    unfolding inspect
    inspect-Sound bytes =
        first (lifted (guard (policy_valid policy) (policy_problem "invalid_policy_limits")))
          (λ done.
            first
              (lifted (
                guard (leb (length bytes) policy.limits.max_receipt_bytes)
                  (policy_problem "receipt_byte_limit")))
              (λ done. first (scanned 0 Role.envelope "outer_trailing_data" bytes) (λ done.
                first (lifted (parsed cbor bytes)) (λ value.
                  first (lifted (envelope_parts value)) (λ parts.
                    first (changed (set_bytes parts.0 parts.2 parts.3) (λ r h. h))
                      (λ done. inspect_protected-Sound parts.0 parts.1))))))

    reported-Sound :
        (r : Result Fault (Unit {0}) × State)
        → After (IsUnauthenticated encoded) policy.limits r
        → IsUnauthenticated encoded (reported cbor uri policy r)
          × ((reported cbor uri policy r).cbor_items_inspected ≤ suc policy.limits.max_cbor_items)
    unfolding reported apply_fault
    reported-Sound (ok u, s) h = (h.0, omega arith)
    reported-Sound (err (Fault.problem p), s) h =
        (apply_problem-IsUnauthenticated p s.report h.0, h.2)
    reported-Sound (err Fault.out_of_fuel, s) h = (h.0, h.2)

  -- Whatever the bytes, the policy and the libraries, the report of an inspection keeps its input,
  -- marks no claim as authenticated, leaves the signature, the inclusion, the trust, the subject
  -- and the application unevaluated, and counts one item more than the policy's limit at most.
  pub inspect_scitt_receipt-IsUnauthenticated :
      (cbor : CborLibrary) (uri : Text → Bool) (policy : Policy)
      → IsUnauthenticated encoded (inspect_scitt_receipt cbor uri policy encoded)
        × ((inspect_scitt_receipt cbor uri policy encoded).cbor_items_inspected
            ≤ suc policy.limits.max_cbor_items)
  unfolding inspect_scitt_receipt initial
  inspect_scitt_receipt-IsUnauthenticated cbor uri policy = reported-Sound cbor uri policy _ (
      (inspect-Sound cbor uri policy encoded).after (initial cbor uri policy encoded)
        (refl, omega arith))
