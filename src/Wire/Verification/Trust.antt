-- ===== src/Wire/Verification/Trust.antt =====
-- What a registration that passes rests on.
use pask_workspace.Prelude.{
  ℕ, ℤ, ◌≡◌, refl, arith, ◌⊎◌, inl, inr, ◌&&◌, ◌||◌, if◌then◌else◌, Bool, true, false, List, [],
  ◌∷◌, Option, none, some, Text, is_empty, Bool-cases,
}
use pask_workspace.Wire.Verification.{
  TrustInputOrigin, TsKeyAssociation, RotationPolicy, TsTrustContext, Report, passed,
}
use pask_workspace.Wire.Verification.Proofs.{is_passed}
use pask_workspace.Wire.Verification.Associate.{
  issuer_of, is_distrusted, is_matching, is_authenticated, select, is_blank, is_accepted, in_window,
  windows, accept, by_windows, at_time, associate_matching, associate,
}

abbrev pub is_registrable : Report → Bool
is_registrable r = is_passed r.acceptable_for_registration.status

-- Some association of a list passes a test.
abbrev pub Some : (TsKeyAssociation → Bool) → List TsKeyAssociation → Type 0
Some test [] = ⊥
Some test (a ∷ rest) = (test a ≡ true) ⊎ Some test rest

-- The window of an association is current.
abbrev pub is_current : ℤ → TsKeyAssociation → Bool
is_current now a = in_window now a.valid_from a.valid_until

windows-Some :
    (now : ℤ) (rest : List TsKeyAssociation)
    → (windows now rest).0 ≡ true
    → Some (is_current now) rest
unfolding windows
windows-Some now [] h = absurd (ground arith)
windows-Some now (a ∷ rest) h = elim (Bool-cases (in_window now a.valid_from a.valid_until)) [
  | inl t ↦ inl t
  | inr f ↦ inr (windows-Some now rest (ground arith))
]

select-Some :
    (choose test : TsKeyAssociation → Bool) (rest : List TsKeyAssociation)
    → Some test (select choose rest)
    → Some (λ a. choose a && test a) rest
unfolding select
select-Some choose test [] h = h
select-Some choose test (a ∷ rest) h =
    elim (choose a)
        as (λ c.
          Some test (if c then a ∷ select choose rest else select choose rest)
          → ((c && test a) ≡ true) ⊎ Some (λ a. choose a && test a) rest) [
            | true ↦ λ k. elim k [ inl t ↦ inl t | inr s ↦ inr (select-Some choose test rest s) ]
            | false ↦ λ k. inr (select-Some choose test rest k)
          ]
      h

module _ (r : Report) (unset : is_registrable r ≡ false) where
  accept-ok :
      (origin : TrustInputOrigin)
      → is_registrable (accept origin r) ≡ true
      → origin ≡ TrustInputOrigin.caller_authenticated_external
  unfolding accept
  accept-ok TrustInputOrigin.local_simulation h = absurd (ground arith)
  accept-ok TrustInputOrigin.caller_authenticated_external h = refl

  by_windows-ok :
      (w : Bool × Bool)
      → is_registrable (by_windows w r) ≡ true
      → (w.0 ≡ true) × (r.trust_context.origin ≡ TrustInputOrigin.caller_authenticated_external)
  unfolding by_windows
  by_windows-ok (true, missing) h = (refl, accept-ok r.trust_context.origin h)
  by_windows-ok (false, true) h = absurd (ground arith)
  by_windows-ok (false, false) h = absurd (ground arith)

  at_time-ok :
      (time : Option ℤ) (rotation : Option RotationPolicy) (bound : List TsKeyAssociation)
      → is_registrable (at_time time rotation bound r) ≡ true
      → (now : ℤ) × (time ≡ some now)
        × (rotation ≡ some RotationPolicy.valid_at_evaluation_time_v1)
        × Some (is_current now) bound
        × (r.trust_context.origin ≡ TrustInputOrigin.caller_authenticated_external)
  unfolding at_time
  at_time-ok none rotation bound h = absurd (ground arith)
  at_time-ok (some now) none bound h = absurd (ground arith)
  at_time-ok (some now) (some RotationPolicy.valid_at_evaluation_time_v1) bound h =
      let both = by_windows-ok (windows now bound) h in
      (now, refl, refl, windows-Some now bound both.0, both.1)

-- What the trust context says of a key that is trusted for a service.
pub record IsTrusted (key : List ℕ) (issuer : Text) (c : TsTrustContext) : Type 0 where
  pub external : c.origin ≡ TrustInputOrigin.caller_authenticated_external
  pub not_distrusted : is_distrusted key c.associations ≡ false
  pub provisioned : is_blank c.provisioned_by ≡ false
  pub accepted : is_accepted issuer c.accepted_ts_identities ≡ true
  pub now : ℤ
  pub time : c.evaluation_time ≡ some now
  pub rotation : c.rotation_policy ≡ some RotationPolicy.valid_at_evaluation_time_v1
  pub bound :
      Some
        (λ a. is_matching key issuer a && (is_authenticated a.provenance && is_current now a))
        c.associations

associate_matching-ok :
    (key : List ℕ) (issuer : Text) (r : Report)
    → is_registrable r ≡ false
    → is_distrusted key r.trust_context.associations ≡ false
    → is_registrable
        (associate_matching issuer (select (is_matching key issuer) r.trust_context.associations) r)
      ≡ true
    → IsTrusted key issuer r.trust_context
unfolding associate_matching
associate_matching-ok key issuer r unset honest h =
    let matching : List TsKeyAssociation =
      select (is_matching key issuer) r.trust_context.associations in
    let bound : List TsKeyAssociation = select (λ a. is_authenticated a.provenance) matching in
    let known : Report = record r {
      ts_key_association = passed "actual_key_has_caller_authenticated_service_binding";
    } in
    elim (Bool-cases (is_empty bound || is_blank r.trust_context.provisioned_by)) [
      | inl t ↦ absurd (ground arith)
      | inr f ↦ elim (Bool-cases (is_accepted issuer r.trust_context.accepted_ts_identities)) [
        | inr g ↦ absurd (ground arith)
        | inl t ↦
            let last =
              at_time-ok known unset r.trust_context.evaluation_time r.trust_context.rotation_policy
                bound (ground arith) in
            record {
              external = last.4;
              not_distrusted = honest;
              provisioned = ground arith;
              accepted = t;
              now = last.0;
              time = last.1;
              rotation = last.2;
              bound =
                  select-Some (is_matching key issuer)
                    (λ a. is_authenticated a.provenance && is_current last.0 a)
                    r.trust_context.associations
                    (select-Some (λ a. is_authenticated a.provenance) (is_current last.0) matching
                      last.3);
            }
      ]
    ]

pub associate-ok :
    (key : List ℕ) (r : Report)
    → is_registrable r ≡ false
    → is_registrable (associate key r) ≡ true
    → IsTrusted key (issuer_of r.envelope.unauthenticated_claims) r.trust_context
unfolding associate
associate-ok key r unset h = elim (Bool-cases (is_distrusted key r.trust_context.associations)) [
  | inl t ↦ absurd (ground arith)
  | inr f ↦
      elim (Bool-cases (
        is_empty (
          select (is_matching key (issuer_of r.envelope.unauthenticated_claims))
            r.trust_context.associations))) [
              | inl t ↦ absurd (ground arith)
              | inr g ↦ associate_matching-ok key _ r unset f (ground arith)
            ]
]
