-- ===== src/Wire/Statement/Trusted.antt =====
-- What the trust of an issuer rests on.
use pask_workspace.Prelude.{
  ℕ, ◌≡◌, refl, arith, ◌&&◌, ◌||◌, not, Bool, true, false, List, Option, none, some, Bool-cases,
  inl, inr,
}
use pask_workspace.Wire.Inspection.{Finding}
use pask_workspace.Wire.Inspection.Claims.{Claims}
use pask_workspace.Wire.Cbor.Labels.{is_some_int}
use pask_workspace.Wire.Verification.{TsPublicKey, VerificationLibraries}
use pask_workspace.Wire.Verification.Proofs.{is_passed}
use pask_workspace.Wire.Statement.{OuterStatementReport, bounded_text}
use pask_workspace.Wire.Statement.Issuer.{
  IssuerKeyInput, IssuerFindings, authenticated_provenance, bounded_provenance, is_claimed,
  is_local, is_current_at, issuer_association, issuer_trust, after_signature, signature_holds,
  signed_statement, verified_with, check_signed, check_issuer,
}

abbrev pub is_trusted : IssuerFindings → Bool
is_trusted s = is_passed s.issuer_identity_trust.status

abbrev pub outcome : Option IssuerFindings → Bool
outcome none = false
outcome (some s) = is_trusted s

-- What the input says of a key that is trusted for the claims.
pub record IsBound (claims : Option Claims) (k : IssuerKeyInput) : Type 0 where
  pub not_distrusted : k.explicitly_distrusted ≡ false
  pub claimed : is_claimed claims k.issuer ≡ true
  pub authenticated : authenticated_provenance k.provenance ≡ true
  pub current : is_current_at k.evaluation_time k.valid_from k.valid_until ≡ true
  pub external : is_local k.origin ≡ false

issuer_association-ok :
    (claims : Option Claims) (k : IssuerKeyInput)
    → is_passed (issuer_association claims k).status ≡ true
    → (is_claimed claims k.issuer && authenticated_provenance k.provenance) ≡ true
unfolding issuer_association
issuer_association-ok claims k h =
    elim (Bool-cases (is_claimed claims k.issuer && authenticated_provenance k.provenance)) [
      | inl t ↦ t
      | inr f ↦ absurd (ground arith)
    ]

issuer_trust-ok :
    (claims : Option Claims) (k : IssuerKeyInput) (association : Finding)
    → (is_passed association.status ≡ true
        → (is_claimed claims k.issuer && authenticated_provenance k.provenance) ≡ true)
    → is_passed (issuer_trust k association).status ≡ true
    → IsBound claims k
unfolding issuer_trust
issuer_trust-ok claims k association bound h = elim (Bool-cases k.explicitly_distrusted) [
  | inl d ↦ absurd (ground arith)
  | inr honest ↦ elim (Bool-cases (is_passed association.status)) [
    | inr a ↦ absurd (ground arith)
    | inl a ↦ elim (Bool-cases (is_current_at k.evaluation_time k.valid_from k.valid_until)) [
      | inr c ↦ absurd (ground arith)
      | inl current ↦ elim (Bool-cases (is_local k.origin)) [
        | inl l ↦ absurd (ground arith)
        | inr external ↦
            let both = bound a in
            record {
              not_distrusted = honest;
              claimed = ground arith;
              authenticated = ground arith;
              current = current;
              external = external;
            }
      ]
    ]
  ]
]

module _ (lib : VerificationLibraries) where
  -- The signature of the statement that was verified.
  pub record IsSignedBy (outer : OuterStatementReport) (k : IssuerKeyInput) : Type 0 where
    pub key : List ℕ
    pub ed25519 : k.public_key ≡ TsPublicKey.ed25519 key
    pub algorithm : is_some_int outer.algorithm k.algorithm ≡ true
    pub message : List ℕ
    pub encoded : signed_statement lib outer.protected_bytes outer.payload_bytes ≡ some message
    pub signature : List ℕ
    pub present : outer.signature_bytes ≡ some signature
    pub holds :
        signature_holds lib (lib.from_bytes key) (lib.receipts.from_slice signature) message ≡ true
    pub bound : IsBound outer.claims k

  after_signature-ok :
      (valid : Bool) (outer : OuterStatementReport) (k : IssuerKeyInput) (key : List ℕ)
      (s : IssuerFindings)
      → is_trusted s ≡ false
      → is_trusted (after_signature valid outer k key s) ≡ true
      → (valid ≡ true) × IsBound outer.claims k
  unfolding after_signature
  after_signature-ok false outer k key s unset h = absurd (ground arith)
  after_signature-ok true outer k key s unset h = (
    refl,
    issuer_trust-ok outer.claims k (issuer_association outer.claims k)
        (issuer_association-ok outer.claims k) h,
  )

  verified_with-ok :
      (message signature : Option (List ℕ)) (outer : OuterStatementReport) (k : IssuerKeyInput)
      (key : List ℕ) (s : IssuerFindings)
      → is_trusted s ≡ false
      → outcome (verified_with lib message signature outer k key s) ≡ true
      → (m : List ℕ) × (n : List ℕ) × (message ≡ some m)
        × (signature ≡ some n)
        × (signature_holds lib (lib.from_bytes key) (lib.receipts.from_slice n) m ≡ true)
        × IsBound outer.claims k
  verified_with-ok none signature outer k key s unset h = absurd (ground arith)
  verified_with-ok (some m) none outer k key s unset h = absurd (ground arith)
  verified_with-ok (some m) (some n) outer k key s unset h =
      let (valid, bound) = after_signature-ok _ outer k key s unset h in
      (m, n, refl, refl, valid, bound)

  check_signed-ok :
      (outer : OuterStatementReport) (k : IssuerKeyInput) (p : TsPublicKey) (s : IssuerFindings)
      → k.public_key ≡ p
      → is_some_int outer.algorithm k.algorithm ≡ true
      → is_trusted s ≡ false
      → outcome (check_signed lib outer k p s) ≡ true
      → IsSignedBy outer k
  unfolding check_signed
  check_signed-ok outer k (TsPublicKey.unsupported_key key_type bytes) s e a unset h =
      absurd (ground arith)
  check_signed-ok outer k (TsPublicKey.ed25519 key) s e a unset h =
      let (m, n, encoded, present, holds, bound) =
        verified_with-ok (signed_statement lib outer.protected_bytes outer.payload_bytes)
          outer.signature_bytes outer k key s unset h in
      record {
        key = key;
        ed25519 = e;
        algorithm = a;
        message = m;
        encoded = encoded;
        signature = n;
        present = present;
        holds = holds;
        bound = bound;
      }

  -- An issuer comes to be trusted only where a key is given, is an Ed25519 key of the algorithm
  -- that the statement declares, verifies the statement's own signature over its protected bytes
  -- and payload, and is bound to the claimed issuer by an authenticated source, at a current time,
  -- from the outside, and not distrusted.
  pub check_issuer-trusted :
      (outer : OuterStatementReport) (o : Option IssuerKeyInput) (s : IssuerFindings)
      → is_trusted s ≡ false
      → outcome (check_issuer lib outer o s) ≡ true
      → (k : IssuerKeyInput) × (o ≡ some k) × IsSignedBy outer k
  unfolding check_issuer
  check_issuer-trusted outer none s unset h = absurd (ground arith)
  check_issuer-trusted outer (some k) s unset h =
      elim (Bool-cases (not (bounded_text k.issuer) || not (bounded_provenance k.provenance))) [
        | inl t ↦ absurd (ground arith)
        | inr f ↦ elim (Bool-cases (is_passed outer.support.status)) [
          | inr u ↦ absurd (ground arith)
          | inl u ↦ elim (Bool-cases (is_some_int outer.algorithm k.algorithm)) [
            | inr a ↦ absurd (ground arith)
            | inl a ↦ (k, refl, check_signed-ok outer k k.public_key s refl a unset (ground arith))
          ]
        ]
      ]
