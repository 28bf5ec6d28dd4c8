-- ===== src/Wire/Verification/Signed.antt =====
-- What a registration that passes rests on, from the findings on the proofs on.
use pask_workspace.Prelude.{
  ℕ, ◌≡◌, refl, sym, subst, arith, inl, inr, true, false, List, [], ◌∷◌, Option, none, some,
  Bool-cases, get_elem?,
}
use pask_workspace.Wire.Inspection.{Finding}
use pask_workspace.Wire.Inspection.Report.{Envelope}
use pask_workspace.Wire.Verification.{
  VerifyingKeyEvidence, ProofVerification, TsTrustContext, Report,
}
use pask_workspace.Wire.Verification.Proofs.{
  is_passed, is_failed, is_not_evaluated, any_finding, all_findings, aggregate,
}
use pask_workspace.Wire.Verification.Associate.{issuer_of}
use pask_workspace.Wire.Verification.Run.{
  agree, signatures, inclusions, associate_key, by_indices, by_signer, conclude,
}
use pask_workspace.Wire.Verification.Kept.{kept-conclude}
use pask_workspace.Wire.Verification.Trust.{is_registrable, IsTrusted, associate-ok}

aggregate-passed :
    (fs : List Finding) (code : _)
    → is_passed (aggregate fs code).status ≡ true
    → all_findings is_passed fs ≡ true
unfolding aggregate
aggregate-passed fs code h = elim (Bool-cases (any_finding is_failed fs)) [
  | inl t ↦ absurd (ground arith)
  | inr f ↦ elim (Bool-cases (all_findings is_passed fs)) [
    | inl t ↦ t
    | inr g ↦ elim (Bool-cases (all_findings is_not_evaluated fs)) [
      | inl t ↦ absurd (ground arith)
      | inr k ↦ absurd (ground arith)
    ]
  ]
]

-- What a registration that passes rests on.
pub record IsSigned (ps : List ProofVerification) (keys : List VerifyingKeyEvidence) (e : Envelope)
    (c : TsTrustContext) : Type 0 where
  pub all_signed : all_findings is_passed (signatures ps) ≡ true
  pub all_included : all_findings is_passed (inclusions ps) ≡ true
  pub index : ℕ
  pub same : agree (index ∷ []) ps ≡ true
  pub signer : VerifyingKeyEvidence
  pub found : get_elem? keys index ≡ some signer
  pub trusted : IsTrusted signer.public_key (issuer_of e.unauthenticated_claims) c

associate_key-ok :
    (o : Option VerifyingKeyEvidence) (r : Report)
    → is_registrable r ≡ false
    → is_registrable (associate_key o r) ≡ true
    → (k : VerifyingKeyEvidence) × (o ≡ some k)
      × IsTrusted k.public_key (issuer_of r.envelope.unauthenticated_claims) r.trust_context
associate_key-ok none r unset h = absurd (ground arith)
associate_key-ok (some k) r unset h = (k, refl, associate-ok k.public_key r unset h)

by_indices-ok :
    (indices : List ℕ) (ps : List ProofVerification) (r : Report)
    → is_registrable r ≡ false
    → is_registrable (by_indices indices ps r) ≡ true
    → (index : ℕ) × (agree (index ∷ []) ps ≡ true)
      × (k : VerifyingKeyEvidence) × (get_elem? r.candidate_keys index ≡ some k)
      × IsTrusted k.public_key (issuer_of r.envelope.unauthenticated_claims) r.trust_context
unfolding by_indices
by_indices-ok [] ps r unset h = absurd (ground arith)
by_indices-ok (i ∷ []) ps r unset h = elim (Bool-cases (agree (i ∷ []) ps)) [
  | inl t ↦
      let (k, found, trusted) =
        associate_key-ok (get_elem? r.candidate_keys i) r unset (ground arith) in
      (i, t, k, found, trusted)
  | inr f ↦ absurd (ground arith)
]
by_indices-ok (i ∷ j ∷ rest) ps r unset h = absurd (ground arith)

by_signer-ok :
    (ps : List ProofVerification) (r : Report)
    → is_registrable r ≡ false
    → is_registrable (by_signer ps r) ≡ true
    → (index : ℕ) × (agree (index ∷ []) ps ≡ true)
      × (k : VerifyingKeyEvidence) × (get_elem? r.candidate_keys index ≡ some k)
      × IsTrusted k.public_key (issuer_of r.envelope.unauthenticated_claims) r.trust_context
unfolding by_signer
by_signer-ok [] r unset h = absurd (ground arith)
by_signer-ok (p ∷ ps) r unset h = by_indices-ok p.verifying_key_indices (p ∷ ps) r unset h

pub conclude-ok :
    (r : Report)
    → is_registrable r ≡ false
    → is_registrable (conclude r) ≡ true
    → IsSigned (conclude r).proofs (conclude r).candidate_keys r.envelope r.trust_context
unfolding conclude
conclude-ok r unset h =
    let signed_sum = aggregate (signatures r.proofs) "all_proof_roots_signed" in
    let included_sum = aggregate (inclusions r.proofs) "all_proofs_authenticated" in
    let summed : Report = record r { ts_signature = signed_sum; inclusion = included_sum } in
    elim (Bool-cases (is_passed signed_sum.status)) [
      | inr f ↦ absurd (ground arith)
      | inl t ↦ elim (Bool-cases (is_passed included_sum.status)) [
        | inr g ↦ absurd (ground arith)
        | inl u ↦
            let (index, same, k, found, trusted) =
              by_signer-ok r.proofs summed unset (ground arith) in
            subst (λ parts. IsSigned parts.0 parts.1 r.envelope r.trust_context)
              (sym (kept-conclude r))
              (record {
                all_signed = aggregate-passed (signatures r.proofs) "all_proof_roots_signed" t;
                all_included = aggregate-passed (inclusions r.proofs) "all_proofs_authenticated" u;
                index = index;
                same = same;
                signer = k;
                found = found;
                trusted = trusted;
              })
      ]
    ]
