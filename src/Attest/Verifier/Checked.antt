-- ===== src/Attest/Verifier/Checked.antt =====
-- The second half of `verify`: the claims and their checks.
use pask_workspace.Prelude.{
  ℕ, ◌+◌, ◌≤◌, ◌<◌, ◌≡◌, refl, true, List, Option, some, Text, ascii, bytes_eq, bytes_eq→eq, Result,
  ok, >>=-eq-ok, guard, subst, sym, ap, ◌∙◌,
}
use pask_workspace.Wire.Digest.{sha256_prefixed}
use pask_workspace.Attest.Error.{SystemTime, AttestationError, required}
use pask_workspace.Attest.TeeClass.{TeeClass, as_str, from_str, from_str-ok}
use pask_workspace.Attest.Boot.{MeasuredBoot, boot_bytes, verify_boot_chain, verify_boot_chain-ok}
use pask_workspace.Attest.Evidence.{PlatformEvidence, SealedEvidence}
use pask_workspace.Attest.Validity.{
  ValidityWindow, max_clock_skew, parse_rfc3339, from_rfc3339-ok, check_clock, check_clock_lem,
}
use pask_workspace.Attest.Attestation.{Attestation}
use pask_workspace.Attest.Verifier.{
  QuoteLibraries, RawQuote, RawValidity, quote_spec, build_validity, build_measured_boot,
  checked_boot, checked_validity, read_claims, build_platform_evidence, build_sealed_evidence,
}
use pask_workspace.Attest.Verifier.Signed.{required-ok, ok-injective, guard-true}

module _ (lib : QuoteLibraries) where
  -- The claim is there, and is what the part was built from.
  abbrev pub IsBuilt : {R A : Type 0} → Option R → (R → Result AttestationError A) → A → Type 0
  IsBuilt {R = R} claim build a = (raw : R) × (claim ≡ some raw) × (build raw ≡ ok a)

  -- The claims of the attestation are those of the quote, and pass their checks.
  pub record IsChecked (raw : RawQuote) (clock_now : Text) (a : Attestation) : Type 0 where
    pub spec : raw.spec ≡ some quote_spec
    pub tee_class : raw.tee_class ≡ some (as_str a.tee_class)
    pub witness : raw.witness_key ≡ some a.witness_key
    pub boot : IsBuilt raw.measured_boot build_measured_boot a.measured_boot
    pub platform : IsBuilt raw.platform_evidence build_platform_evidence a.platform_evidence
    pub sealed : IsBuilt raw.sealed_evidence build_sealed_evidence a.sealed_evidence
    pub validity : IsBuilt raw.validity (build_validity lib) a.validity
    pub boot_form : List ℕ
    pub boot_written : boot_bytes lib.boot a.measured_boot.components ≡ ok boot_form
    pub boot_chain : a.measured_boot.chain ≡ sha256_prefixed lib.boot.sha256 boot_form
    pub now : SystemTime
    pub now_read : parse_rfc3339 lib.parse_instant clock_now (ascii "clock.now") ≡ ok now
    pub ordered : a.validity.not_before < a.validity.not_after
    pub started : a.validity.not_before ≤ now + max_clock_skew
    pub unexpired : now ≤ a.validity.not_after + max_clock_skew

  checked_boot-ok :
      (raw : RawQuote) (boot : MeasuredBoot)
      → checked_boot lib raw ≡ ok boot
      → IsBuilt raw.measured_boot build_measured_boot boot
        × (bytes : List ℕ) × (boot_bytes lib.boot boot.components ≡ ok bytes)
        × (boot.chain ≡ sha256_prefixed lib.boot.sha256 bytes)
  unfolding checked_boot
  checked_boot-ok raw boot h =
      let (claims, hc, h1) = >>=-eq-ok (required raw.measured_boot (ascii "measuredBoot")) _ h in
      let (built, hb, h2) = >>=-eq-ok (build_measured_boot claims) _ h1 in
      let (_, hv, h3) = >>=-eq-ok (verify_boot_chain lib.boot built) _ h2 in
      let e : built ≡ boot = cc in
      let (form, written, chain) = verify_boot_chain-ok lib.boot boot (rw (← e) hv) in
      ((claims, required-ok raw.measured_boot _ hc, hb ∙ ap ok e), form, written, chain)

  build_validity-ok :
      (raw : RawValidity) (w : ValidityWindow)
      → build_validity lib raw ≡ ok w
      → w.not_before < w.not_after
  unfolding build_validity
  build_validity-ok raw w h =
      let (a, _, h1) = >>=-eq-ok (required raw.not_before (ascii "validity.notBefore")) _ h in
      let (b, _, h2) = >>=-eq-ok (required raw.not_after (ascii "validity.notAfter")) _ h1 in
      from_rfc3339-ok lib.parse_instant a b w h2

  checked_validity-ok :
      (raw : RawQuote) (clock_now : Text) (w : ValidityWindow)
      → checked_validity lib raw clock_now ≡ ok w
      → IsBuilt raw.validity (build_validity lib) w
        × (now : SystemTime) × (parse_rfc3339 lib.parse_instant clock_now (ascii "clock.now")
            ≡ ok now)
        × (w.not_before < w.not_after)
        × (w.not_before ≤ now + max_clock_skew)
        × (now ≤ w.not_after + max_clock_skew)
  unfolding checked_validity
  checked_validity-ok raw clock_now w h =
      let (claims, hr, h1) = >>=-eq-ok (required raw.validity (ascii "validity")) _ h in
      let (built, hb, h2) = >>=-eq-ok (build_validity lib claims) _ h1 in
      let (now, hn, h3) =
        >>=-eq-ok (parse_rfc3339 lib.parse_instant clock_now (ascii "clock.now")) _ h2 in
      let (_, hc, h4) = >>=-eq-ok (check_clock built now) _ h3 in
      let e : built ≡ w = cc in
      let (accepted, _, _) = check_clock_lem w now in
      let (s, u) = accepted.0 (rw (← e) hc) in
      (
        (claims, required-ok raw.validity _ hr, hb ∙ ap ok e),
        now,
        hn,
        build_validity-ok claims w (rw (← e) hb),
        s,
        u,
      )

  abbrev assembled :
      TeeClass
      → MeasuredBoot
      → PlatformEvidence
      → SealedEvidence
      → Text
      → ValidityWindow
      → Attestation
  assembled class boot platform sealed witness validity = record {
    tee_class = class;
    measured_boot = boot;
    platform_evidence = platform;
    sealed_evidence = sealed;
    witness_key = witness;
    validity = validity;
  }

  assembled-IsChecked :
      (raw : RawQuote) (clock_now spec claim witness : Text) (class : TeeClass)
      (boot : MeasuredBoot) (platform : PlatformEvidence) (sealed : SealedEvidence)
      (validity : ValidityWindow)
      → raw.spec ≡ some spec
      → bytes_eq spec quote_spec ≡ true
      → raw.tee_class ≡ some claim
      → from_str claim ≡ ok class
      → checked_boot lib raw ≡ ok boot
      → IsBuilt raw.platform_evidence build_platform_evidence platform
      → IsBuilt raw.sealed_evidence build_sealed_evidence sealed
      → raw.witness_key ≡ some witness
      → checked_validity lib raw clock_now ≡ ok validity
      → IsChecked raw clock_now (assembled class boot platform sealed witness validity)
  assembled-IsChecked raw clock_now spec claim witness class boot platform sealed validity hs hv hc
        hclass hb hp he hw ht =
      let (boot_built, form, written, chain) = checked_boot-ok raw boot hb in
      let (validity_built, now, now_read, ordered, started, unexpired) =
        checked_validity-ok raw clock_now validity ht in
      record {
        spec = hs ∙ ap some (bytes_eq→eq spec quote_spec hv);
        tee_class = hc ∙ ap some (sym (from_str-ok claim class hclass));
        witness = hw;
        boot = boot_built;
        platform = hp;
        sealed = he;
        validity = validity_built;
        boot_form = form;
        boot_written = written;
        boot_chain = chain;
        now = now;
        now_read = now_read;
        ordered = ordered;
        started = started;
        unexpired = unexpired;
      }

  pub read_claims-IsChecked :
      (raw : RawQuote) (clock_now : Text) (a : Attestation)
      → read_claims lib raw clock_now ≡ ok a
      → IsChecked raw clock_now a
  unfolding read_claims
  read_claims-IsChecked raw clock_now a h =
      let (spec, h_spec, h1) = >>=-eq-ok (required raw.spec (ascii "spec")) _ h in
      let (_, h_version, h2) =
        >>=-eq-ok
          (guard (bytes_eq spec quote_spec)
            (AttestationError.malformed_quote (ascii "unsupported quote spec")))
          _ h1 in
      let (claim, h_claim, h3) = >>=-eq-ok (required raw.tee_class (ascii "teeClass")) _ h2 in
      let (class, h_class, h4) = >>=-eq-ok (from_str claim) _ h3 in
      let (boot, h_boot, h5) = >>=-eq-ok (checked_boot lib raw) _ h4 in
      let (platform_claim, h_platform, h6) =
        >>=-eq-ok (required raw.platform_evidence (ascii "platformEvidence")) _ h5 in
      let (platform, built_platform, h7) =
        >>=-eq-ok (build_platform_evidence platform_claim) _ h6 in
      let (sealed_claim, h_sealed, h8) =
        >>=-eq-ok (required raw.sealed_evidence (ascii "sealedEvidence")) _ h7 in
      let (sealed, built_sealed, h9) = >>=-eq-ok (build_sealed_evidence sealed_claim) _ h8 in
      let (witness, h_witness, h10) =
        >>=-eq-ok (required raw.witness_key (ascii "witnessKey")) _ h9 in
      let (validity, h_validity, h11) = >>=-eq-ok (checked_validity lib raw clock_now) _ h10 in
      subst (IsChecked raw clock_now) (ok-injective _ refl h11) (
        assembled-IsChecked raw clock_now spec claim witness class boot platform sealed validity
          (required-ok raw.spec _ h_spec) (guard-true _ _ h_version)
          (required-ok raw.tee_class _ h_claim) h_class h_boot
          (platform_claim, required-ok raw.platform_evidence _ h_platform, built_platform)
          (sealed_claim, required-ok raw.sealed_evidence _ h_sealed, built_sealed)
          (required-ok raw.witness_key _ h_witness) h_validity)
