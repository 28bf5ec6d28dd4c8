-- ===== src/Wire/Verification/Associate.antt =====
-- crates/pask-wire/src/receipt_verification.rs: `associate`.
use pask_workspace.Prelude.{
  ℕ, ℤ, ◌&&◌, ◌||◌, not, if◌then◌else◌, Bool, true, false, List, [], ◌∷◌, Option, none, some, Text,
  is_empty, bytes_eq, int_eq, int_le, int_lt,
}
use pask_workspace.Wire.Inspection.{Finding}
use pask_workspace.Wire.Inspection.Claims.{Claims}
use pask_workspace.Wire.Verification.{
  TrustInputOrigin, BindingProvenance, TsPublicKey, TsKeyAssociation, RotationPolicy, Report,
  unestablished, failed, passed,
}

-- `unwrap_or("")`
abbrev pub issuer_of : Option Claims → Text
issuer_of none = []
issuer_of (some claims) = claims.issuer

-- `a.public_key == TsPublicKey::Ed25519(key)`
abbrev pub is_key : List ℕ → TsPublicKey → Bool
is_key key (TsPublicKey.ed25519 other) = bytes_eq other key
is_key key (TsPublicKey.unsupported_key key_type bytes) = false

unfoldable pub is_distrusted : List ℕ → List TsKeyAssociation → Bool
is_distrusted key [] = false
is_distrusted key (a ∷ rest) =
    (is_key key a.public_key && a.explicitly_distrusted) || is_distrusted key rest

abbrev pub is_matching : List ℕ → Text → TsKeyAssociation → Bool
is_matching key issuer a =
    is_key key a.public_key && int_eq a.algorithm (ℤ.negsuc 7) && bytes_eq a.service_identity issuer

abbrev pub is_authenticated : BindingProvenance → Bool
is_authenticated (BindingProvenance.caller_authenticated authority evidence_ref) =
    not (is_empty authority) && not (is_empty evidence_ref)
is_authenticated _ = false

-- `filter`
unfoldable pub select : (TsKeyAssociation → Bool) → List TsKeyAssociation → List TsKeyAssociation
select test [] = []
select test (a ∷ rest) = let chosen = select test rest in if test a then a ∷ chosen else chosen

abbrev pub is_blank : Option Text → Bool
is_blank none = true
is_blank (some text) = is_empty text

abbrev pub is_accepted : Text → List Text → Bool
is_accepted issuer [] = false
is_accepted issuer (identity ∷ rest) = bytes_eq identity issuer || is_accepted issuer rest

abbrev pub in_window : ℤ → Option ℤ → Option ℤ → Bool
in_window now (some from) (some until) = int_lt from until && int_le from now && int_lt now until
in_window now _ _ = false

abbrev pub has_window : Option ℤ → Option ℤ → Bool
has_window (some from) (some until) = true
has_window _ _ = false

-- `any` with its two results: whether a window is current, and whether one was missing before it.
unfoldable pub windows : ℤ → List TsKeyAssociation → Bool × Bool
windows now [] = (false, false)
windows now (a ∷ rest) =
    let later = windows now rest in
    if in_window now a.valid_from a.valid_until
    then (true, false)
    else (later.0, not (has_window a.valid_from a.valid_until) || later.1)

-- The end of `associate`.
unfoldable pub accept : TrustInputOrigin → Report → Report
accept TrustInputOrigin.local_simulation r = record r {
  ts_identity_trust = passed "local_simulation_conditional_trust_only";
  acceptable_for_registration = unestablished "simulation_is_not_real_registration_evidence";
}
accept TrustInputOrigin.caller_authenticated_external r = record r {
  ts_identity_trust = passed "trusted_under_caller_authenticated_offline_configuration";
  acceptable_for_registration =
      passed "single_receipt_registration_evidence_only_not_application_acceptance";
}

abbrev pub set_identity : Finding → Report → Report
set_identity f r = record r { ts_identity_trust = f }

abbrev pub set_both : Finding → Finding → Report → Report
set_both association identity r = record r {
  ts_key_association = association;
  ts_identity_trust = identity;
}

-- From the windows on.
unfoldable pub by_windows : Bool × Bool → Report → Report
by_windows (valid, missing) r =
    if valid
    then accept r.trust_context.origin r
    else if missing
    then set_identity (unestablished "key_validity_evidence_missing") r
    else set_identity (failed "no_current_authorized_key_window") r

-- From the evaluation time and the rotation policy on.
unfoldable pub at_time : Option ℤ → Option RotationPolicy → List TsKeyAssociation → Report → Report
at_time (some now) (some RotationPolicy.valid_at_evaluation_time_v1) bound r =
    by_windows (windows now bound) r
at_time _ _ bound r = set_identity (unestablished "evaluation_time_or_rotation_policy_missing") r

-- From the matching rows on.
unfoldable pub associate_matching : Text → List TsKeyAssociation → Report → Report
associate_matching issuer matching r =
    let bound = select (λ a. is_authenticated a.provenance) matching in
    let c = r.trust_context in
    if is_empty bound || is_blank c.provisioned_by
    then record r { ts_key_association = unestablished "authenticated_binding_evidence_missing" }
    else let known : Report = record r {
      ts_key_association = passed "actual_key_has_caller_authenticated_service_binding";
    } in
      if not (is_accepted issuer c.accepted_ts_identities)
      then set_identity (failed "service_identity_not_accepted") known
      else at_time c.evaluation_time c.rotation_policy bound known

-- `associate`, from the key on.
unfoldable pub associate : List ℕ → Report → Report
associate key r =
    let issuer = issuer_of r.envelope.unauthenticated_claims in
    let matching = select (is_matching key issuer) r.trust_context.associations in
    if is_distrusted key r.trust_context.associations
    then set_both (failed "actual_key_explicitly_distrusted")
        (failed "actual_key_explicitly_distrusted") r
    else if is_empty matching
    then set_both (failed "actual_key_not_associated_with_claimed_service")
        (failed "unauthorized_verifying_key") r
    else associate_matching issuer matching r
