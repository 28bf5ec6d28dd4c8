-- ===== src/Wire/Verification/Kept.antt =====
-- What the association of a key leaves as it is.
use pask_workspace.Prelude.{
  ℕ, ℤ, ◌≡◌, refl, ◌||◌, not, if◌then◌else◌, Bool, true, false, List, [], ◌∷◌, Option, none, some,
  Text, is_empty, get_elem?,
}
use pask_workspace.Wire.Inspection.Report.{Envelope}
use pask_workspace.Wire.Verification.{
  TrustInputOrigin, TsKeyAssociation, RotationPolicy, VerifyingKeyEvidence, ProofVerification,
  TsTrustContext, Report, failed, passed, unestablished,
}
use pask_workspace.Wire.Verification.Proofs.{is_passed, aggregate}
use pask_workspace.Wire.Verification.Associate.{
  issuer_of, is_distrusted, is_matching, is_authenticated, select, is_blank, is_accepted,
  set_identity, set_both, accept, by_windows, windows, at_time, associate_matching, associate,
}
use pask_workspace.Wire.Verification.Run.{
  agree, signatures, inclusions, ambiguous, associate_key, by_indices, by_signer, conclude,
}

-- The parts that the association leaves as they are.
abbrev pub kept :
    Report → List ProofVerification × List VerifyingKeyEvidence × Envelope × TsTrustContext × ℕ
kept r = (r.proofs, r.candidate_keys, r.envelope, r.trust_context, r.signature_attempts)

kept-if :
    (test : Bool) (x y r : Report)
    → kept x ≡ kept r
    → kept y ≡ kept r
    → kept (if test then x else y) ≡ kept r
kept-if true x y r h k = h
kept-if false x y r h k = k

kept-accept : (o : TrustInputOrigin) (r : Report) → kept (accept o r) ≡ kept r
unfolding accept
kept-accept TrustInputOrigin.local_simulation r = refl
kept-accept TrustInputOrigin.caller_authenticated_external r = refl

kept-by_windows : (w : Bool × Bool) (r : Report) → kept (by_windows w r) ≡ kept r
unfolding by_windows
kept-by_windows (true, missing) r = kept-accept r.trust_context.origin r
kept-by_windows (false, true) r = refl
kept-by_windows (false, false) r = refl

kept-at_time :
    (time : Option ℤ) (rotation : Option RotationPolicy) (bound : List TsKeyAssociation)
    (r : Report)
    → kept (at_time time rotation bound r) ≡ kept r
unfolding at_time
kept-at_time none rotation bound r = refl
kept-at_time (some now) none bound r = refl
kept-at_time (some now) (some RotationPolicy.valid_at_evaluation_time_v1) bound r =
    kept-by_windows (windows now bound) r

kept-associate_matching :
    (issuer : Text) (matching : List TsKeyAssociation) (r : Report)
    → kept (associate_matching issuer matching r) ≡ kept r
unfolding associate_matching
kept-associate_matching issuer matching r =
    let bound : List TsKeyAssociation = select (λ a. is_authenticated a.provenance) matching in
    let known : Report = record r {
      ts_key_association = passed "actual_key_has_caller_authenticated_service_binding";
    } in
    let rest =
      kept-at_time r.trust_context.evaluation_time r.trust_context.rotation_policy bound known in
    let accepted =
      at_time r.trust_context.evaluation_time r.trust_context.rotation_policy bound known in
    let refused = set_identity (failed "service_identity_not_accepted") known in
    let unaccepted = not (is_accepted issuer r.trust_context.accepted_ts_identities) in
    kept-if (is_empty bound || is_blank r.trust_context.provisioned_by)
      (record r { ts_key_association = unestablished "authenticated_binding_evidence_missing" })
      (if unaccepted then refused else accepted) r refl
      (kept-if unaccepted refused accepted r refl rest)

kept-associate : (key : List ℕ) (r : Report) → kept (associate key r) ≡ kept r
unfolding associate
kept-associate key r =
    let issuer = issuer_of r.envelope.unauthenticated_claims in
    let matching = select (is_matching key issuer) r.trust_context.associations in
    let unknown =
      set_both (failed "actual_key_not_associated_with_claimed_service")
        (failed "unauthorized_verifying_key") r in
    let bound = associate_matching issuer matching r in
    kept-if (is_distrusted key r.trust_context.associations)
      (set_both (failed "actual_key_explicitly_distrusted")
        (failed "actual_key_explicitly_distrusted") r)
      (if is_empty matching then unknown else bound) r refl
      (kept-if (is_empty matching) unknown bound r refl (kept-associate_matching issuer matching r))

pub kept-associate_key :
    (o : Option VerifyingKeyEvidence) (r : Report) → kept (associate_key o r) ≡ kept r
kept-associate_key none r = refl
kept-associate_key (some k) r = kept-associate k.public_key r

kept-by_indices :
    (indices : List ℕ) (ps : List ProofVerification) (r : Report)
    → kept (by_indices indices ps r) ≡ kept r
unfolding by_indices
kept-by_indices [] ps r = refl
kept-by_indices (i ∷ []) ps r =
    kept-if (agree (i ∷ []) ps) (associate_key (get_elem? r.candidate_keys i) r) (ambiguous r) r
      (kept-associate_key (get_elem? r.candidate_keys i) r) refl
kept-by_indices (i ∷ j ∷ rest) ps r = refl

kept-by_signer : (ps : List ProofVerification) (r : Report) → kept (by_signer ps r) ≡ kept r
unfolding by_signer
kept-by_signer [] r = refl
kept-by_signer (p ∷ ps) r = kept-by_indices p.verifying_key_indices (p ∷ ps) r

pub kept-conclude : (r : Report) → kept (conclude r) ≡ kept r
unfolding conclude
kept-conclude r =
    let summed : Report = record r {
      ts_signature = aggregate (signatures r.proofs) "all_proof_roots_signed";
      inclusion = aggregate (inclusions r.proofs) "all_proofs_authenticated";
    } in
    kept-if (not (is_passed summed.ts_signature.status) || not (is_passed summed.inclusion.status))
      summed (by_signer r.proofs summed) r refl (kept-by_signer r.proofs summed)
