-- ===== src/Attest/Verifier.antt =====
-- crates/pask-attest/src/verifier.rs: the root of trust and `verify`. Parameters stand for the
-- crates ed25519-dalek, serde_json, time and sha2.
pub mod Signed
pub mod Checked
pub mod Authentic
use pask_workspace.Prelude.{
  ℕ, ℤ, Bool, true, false, List, [], ◌∷◌, Option, none, some, String, Text, ascii, bytes_eq,
  if◌then◌else◌, Result, ok, err, ◌>>=◌, ◌>>◌, guard,
}
use pask_workspace.Wire.Json.{canonicalize_json}
use pask_workspace.Attest.Error.{AttestationError, required, wire}
use pask_workspace.Attest.TeeClass.{from_str}
use pask_workspace.Attest.Boot.{MeasuredBoot, BootLibraries, from_wire, verify_boot_chain}
use pask_workspace.Attest.Evidence.{
  PlatformEvidence, SealedEvidence, platform_from_wire, sealed_from_wire,
}
use pask_workspace.Attest.Validity.{ValidityWindow, parse_rfc3339, from_rfc3339, check_clock}
use pask_workspace.Attest.Attestation.{Attestation}
use pask_workspace.Attest.Frame.{parse_frame}

pub record RawBootComponent : Type 0 where
  pub name : Option Text
  pub digest : Option Text

pub record RawMeasuredBoot : Type 0 where
  pub chain : Option Text
  pub components : Option (List RawBootComponent)

pub record RawPlatformEvidence : Type 0 where
  pub encoding : Option Text
  pub digest : Option Text

pub record RawSealedEvidence : Type 0 where
  pub digest : Option Text
  pub size_bytes : Option ℕ
  pub encoding : Option Text

pub record RawValidity : Type 0 where
  pub not_before : Option Text
  pub not_after : Option Text

pub record RawQuote : Type 0 where
  pub spec : Option Text
  pub tee_class : Option Text
  pub measured_boot : Option RawMeasuredBoot
  pub platform_evidence : Option RawPlatformEvidence
  pub sealed_evidence : Option RawSealedEvidence
  pub witness_key : Option Text
  pub validity : Option RawValidity

pub record QuoteLibraries : Type 1 where
  pub boot : BootLibraries
  -- time
  pub parse_instant : Text → Result Text ℤ
  -- serde_json: `from_slice` at the type `RawQuote`
  pub parse_quote : List ℕ → Result Text RawQuote
  -- ed25519-dalek
  pub Key : Type 0
  pub verify_strict : Key → List ℕ → List ℕ → Bool

-- The claims of the components, in order; the first one missing ends it.
unfoldable pub component_claims :
    List RawBootComponent → Result AttestationError (List (Text × Text))
component_claims [] = ok []
component_claims (c ∷ cs) = do
  name ← required c.name (ascii "measuredBoot.components[].name")
  digest ← required c.digest (ascii "measuredBoot.components[].digest")
  rest ← component_claims cs
  ok ((name, digest) ∷ rest)

unfoldable pub build_measured_boot : RawMeasuredBoot → Result AttestationError MeasuredBoot
build_measured_boot raw = do
  chain ← required raw.chain (ascii "measuredBoot.chain")
  components ← required raw.components (ascii "measuredBoot.components")
  claims ← component_claims components
  from_wire chain claims

unfoldable pub build_platform_evidence :
    RawPlatformEvidence → Result AttestationError PlatformEvidence
build_platform_evidence raw = do
  encoding ← required raw.encoding (ascii "platformEvidence.encoding")
  digest ← required raw.digest (ascii "platformEvidence.digest")
  platform_from_wire encoding digest

unfoldable pub build_sealed_evidence : RawSealedEvidence → Result AttestationError SealedEvidence
build_sealed_evidence raw = do
  digest ← required raw.digest (ascii "sealedEvidence.digest")
  size_bytes ← required raw.size_bytes (ascii "sealedEvidence.sizeBytes")
  encoding ← required raw.encoding (ascii "sealedEvidence.encoding")
  sealed_from_wire digest size_bytes encoding

abbrev pub quote_spec : Text
quote_spec = ascii "wilder.attest/0.1"

abbrev pub read_json : {A : Type 0} → Result Text A → Result AttestationError A
read_json (ok a) = ok a
read_json (err error) = err (AttestationError.malformed_quote error)

-- `keys.get(id).ok_or(UnknownRootOfTrust)` on a map kept as a list, newest first.
module _ {Key : Type 0} where
  unfoldable pub key_for : Text → List (Text × Key) → Result AttestationError Key
  key_for id [] = err AttestationError.unknown_root_of_trust
  key_for id ((k, key) ∷ keys) =
      let rest = key_for id keys in if bytes_eq k id then ok key else rest

  -- `insert` replaces: an older entry for the key is not reached any more.
  unfoldable pub with_key : Text → Key → List (Text × Key) → List (Text × Key)
  with_key id key keys = (id, key) ∷ keys

module _ (lib : QuoteLibraries) where
  unfoldable pub build_validity : RawValidity → Result AttestationError ValidityWindow
  build_validity raw = do
    not_before ← required raw.not_before (ascii "validity.notBefore")
    not_after ← required raw.not_after (ascii "validity.notAfter")
    from_rfc3339 lib.parse_instant not_before not_after

  -- From the start of `verify` through the signature check and the canonical form.
  unfoldable pub authenticate :
      List (Text × lib.Key) → List ℕ → List ℕ → RawQuote → Result AttestationError (Unit {0})
  authenticate keys jcs signature raw = do
    witness_key ← required raw.witness_key (ascii "witnessKey")
    key ← key_for witness_key keys
    guard (lib.verify_strict key jcs signature) AttestationError.invalid_signature
    canonical ← wire (canonicalize_json lib.boot.text lib.boot.from_slice jcs)
    guard (bytes_eq canonical jcs)
        (AttestationError.malformed_quote (ascii "quote JSON is not RFC 8785 canonical"))
    ok tt

  unfoldable pub checked_boot : RawQuote → Result AttestationError MeasuredBoot
  checked_boot raw = do
    boot_claims ← required raw.measured_boot (ascii "measuredBoot")
    measured_boot ← build_measured_boot boot_claims
    verify_boot_chain lib.boot measured_boot
    ok measured_boot

  unfoldable pub checked_validity : RawQuote → Text → Result AttestationError ValidityWindow
  checked_validity raw clock_now = do
    validity_claims ← required raw.validity (ascii "validity")
    validity ← build_validity validity_claims
    now ← parse_rfc3339 lib.parse_instant clock_now (ascii "clock.now")
    check_clock validity now
    ok validity

  -- From the spec to the end of `verify`.
  unfoldable pub read_claims : RawQuote → Text → Result AttestationError Attestation
  read_claims raw clock_now = do
    spec ← required raw.spec (ascii "spec")
    guard (bytes_eq spec quote_spec)
        (AttestationError.malformed_quote (ascii "unsupported quote spec"))
    tee_claim ← required raw.tee_class (ascii "teeClass")
    tee_class ← from_str tee_claim
    measured_boot ← checked_boot raw
    platform_claims ← required raw.platform_evidence (ascii "platformEvidence")
    platform_evidence ← build_platform_evidence platform_claims
    sealed_claims ← required raw.sealed_evidence (ascii "sealedEvidence")
    sealed_evidence ← build_sealed_evidence sealed_claims
    witness_key ← required raw.witness_key (ascii "witnessKey")
    validity ← checked_validity raw clock_now
    ok (record {
      tee_class = tee_class;
      measured_boot = measured_boot;
      platform_evidence = platform_evidence;
      sealed_evidence = sealed_evidence;
      witness_key = witness_key;
      validity = validity;
    })

  -- `verify`; `clock_now` is what `clock.now_rfc3339()` returns.
  unfoldable pub verify :
      List (Text × lib.Key) → List ℕ → Text → Result AttestationError Attestation
  verify keys quote clock_now = do
    (jcs, signature) ← parse_frame quote
    raw ← read_json (lib.parse_quote jcs)
    authenticate keys jcs signature raw
    read_claims raw clock_now
