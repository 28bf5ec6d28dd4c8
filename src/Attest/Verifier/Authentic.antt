-- ===== src/Attest/Verifier/Authentic.antt =====
-- What a quote that `verify` accepts is.
use pask_workspace.Prelude.{ℕ, ◌≡◌, arith, List, Text, ok, >>=-eq-ok, subst}
use pask_workspace.Attest.Attestation.{Attestation}
use pask_workspace.Attest.Frame.{IsFrame, parse_frame, parse_frame_iff}
use pask_workspace.Attest.Verifier.{QuoteLibraries, RawQuote, read_json, authenticate, verify}
use pask_workspace.Attest.Verifier.Signed.{read_json-ok, IsSigned, authenticate-IsSigned}
use pask_workspace.Attest.Verifier.Checked.{IsChecked, read_claims-IsChecked}

module _ (lib : QuoteLibraries) where
  -- An attestation is returned only for a well-framed quote whose signature holds, under the trusted
  -- key of the witness that the attestation names, over bytes in canonical form; its claims are
  -- those of these bytes, its boot chain is the digest of its components, and the clock is
  -- within 60 seconds of its validity window, which is not empty.
  pub verify-ok :
      (keys : List (Text × lib.Key)) (quote : List ℕ) (clock_now : Text) (a : Attestation)
      → verify lib keys quote clock_now ≡ ok a
      → (jcs : List ℕ) × (signature : List ℕ) × (raw : RawQuote) × IsFrame quote jcs signature
        × (lib.parse_quote jcs ≡ ok raw)
        × IsSigned lib keys jcs signature raw a.witness_key
        × IsChecked lib raw clock_now a
  unfolding verify
  verify-ok keys quote clock_now a h =
      let ((jcs, signature), hf, h1) = >>=-eq-ok (parse_frame quote) _ h in
      let (raw, hr, h2) = >>=-eq-ok (read_json (lib.parse_quote jcs)) _ h1 in
      let (_, ha, h3) = >>=-eq-ok (authenticate lib keys jcs signature raw) _ h2 in
      let (witness, s) = authenticate-IsSigned lib keys jcs signature raw ha in
      let c = read_claims-IsChecked lib raw clock_now a h3 in
      let same : witness ≡ a.witness_key = ground (arith, s.named, c.witness) in
      (
        jcs,
        signature,
        raw,
        (parse_frame_iff quote jcs signature).0 hf,
        read_json-ok _ hr,
        subst (IsSigned lib keys jcs signature raw) same s,
        c,
      )
