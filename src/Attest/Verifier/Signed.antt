-- ===== src/Attest/Verifier/Signed.antt =====
-- The first half of `verify`: the signature over the canonical bytes.
use pask_workspace.Prelude.{
  ℕ, ◌≡◌, refl, arith, true, false, Bool, List, Option, none, some, Text, ascii, bytes_eq→eq,
  Result, ok, err, >>=-eq-ok, guard, subst,
}
use pask_workspace.Wire.Json.{canonicalize_json}
use pask_workspace.Wire.Error.{Error}
use pask_workspace.Attest.Error.{AttestationError, required, wire}
use pask_workspace.Attest.Verifier.{QuoteLibraries, RawQuote, read_json, key_for, authenticate}

pub required-ok :
    {A : Type 0} (o : Option A) (claim : Text) {a : A} → required o claim ≡ ok a → o ≡ some a
required-ok none claim e = cc
required-ok (some x) claim e = cc

pub ok-injective :
    {A : Type 0} {a b : A} (r : Result AttestationError A) → r ≡ ok a → r ≡ ok b → a ≡ b
ok-injective r e f = cc

pub guard-true :
    (b : Bool) (failure : AttestationError) {u : Unit {0}} → guard b failure ≡ ok u → b ≡ true
guard-true true failure e = refl
guard-true false failure e = cc

pub wire-ok : {A : Type 0} (r : Result Error A) {a : A} → wire r ≡ ok a → r ≡ ok a
wire-ok (ok x) e = cc
wire-ok (err error) e = cc

pub read_json-ok : {A : Type 0} (r : Result Text A) {a : A} → read_json r ≡ ok a → r ≡ ok a
read_json-ok (ok x) e = cc
read_json-ok (err error) e = cc

module _ (lib : QuoteLibraries) where
  -- The signature over `jcs` holds under the trusted key of the witness that the quote names, and
  -- `jcs` is its own canonical form.
  pub record IsSigned (keys : List (Text × lib.Key)) (jcs signature : List ℕ) (raw : RawQuote)
      (witness : Text) : Type 0 where
    pub key : lib.Key
    pub named : raw.witness_key ≡ some witness
    pub trusted : key_for witness keys ≡ ok key
    pub signed : lib.verify_strict key jcs signature ≡ true
    pub canonical : canonicalize_json lib.boot.text lib.boot.from_slice jcs ≡ ok jcs

  pub authenticate-IsSigned :
      (keys : List (Text × lib.Key)) (jcs signature : List ℕ) (raw : RawQuote)
      → authenticate lib keys jcs signature raw ≡ ok tt
      → (witness : Text) × IsSigned keys jcs signature raw witness
  unfolding authenticate
  authenticate-IsSigned keys jcs signature raw h =
      let (witness, hw, h1) = >>=-eq-ok (required raw.witness_key (ascii "witnessKey")) _ h in
      let (key, hk, h2) = >>=-eq-ok (key_for witness keys) _ h1 in
      let (_, hs, h3) =
        >>=-eq-ok (guard (lib.verify_strict key jcs signature) AttestationError.invalid_signature) _
          h2 in
      let (form, hc, h4) =
        >>=-eq-ok (wire (canonicalize_json lib.boot.text lib.boot.from_slice jcs)) _ h3 in
      let same : form ≡ jcs = bytes_eq→eq form jcs (ground arith) in
      (
        witness,
        record {
          key = key;
          named = required-ok raw.witness_key _ hw;
          trusted = hk;
          signed = ground arith;
          canonical =
              subst (λ f. canonicalize_json lib.boot.text lib.boot.from_slice jcs ≡ ok f) same
                (wire-ok _ hc);
        },
      )
