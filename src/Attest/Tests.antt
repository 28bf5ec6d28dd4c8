-- ===== src/Attest/Tests.antt =====
-- Instances of the results on crates/pask-attest, with a quote that is accepted.
use pask_workspace.Prelude.{
  ℕ, ℤ, ◌+◌, ◌≤◌, ◌<◌, ◌≡◌, refl, ◌↔◌, true, List, [], ◌∷◌, ◌++◌, some, Text, ascii, Result, ok,
  err, replicate,
}
use pask_workspace.Wire.Json.{Json, Number, canonical, canonicalize_json, write_number}
use pask_workspace.Wire.Digest.{sha256_prefixed, hex, validate_sha256, all_hex, is_lower_hex}
use pask_workspace.Wire.Payload.Validate.Samples.{sample_digest, sample_text}
use pask_workspace.Attest.Error.{AttestationError}
use pask_workspace.Attest.TeeClass.{TeeClass, all_classes, from_str, as_str, from_str_iff}
use pask_workspace.Attest.Boot.{from_wire, components_from_wire, boot_bytes, verify_boot_chain}
use pask_workspace.Attest.Evidence.{platform_from_wire, sealed_from_wire}
use pask_workspace.Attest.Validity.{
  ValidityWindow, IsInstant, max_clock_skew, unix_epoch, system_time_from_unix_nanos,
  system_time_from_unix_nanos_iff, check_clock, check_clock_lem, checked_add, duration,
  duration_since, parse_rfc3339, from_rfc3339, ordered_window,
}
use pask_workspace.Attest.Attestation.{Attestation}
use pask_workspace.Attest.Frame.{IsFrame, frame_version, parse_frame, split_frame, parse_frame_iff}
use pask_workspace.Attest.Verifier.{
  QuoteLibraries, RawQuote, verify, authenticate, key_for, read_claims, checked_boot,
  checked_validity, build_validity, build_measured_boot, build_platform_evidence,
  build_sealed_evidence, component_claims,
}
use pask_workspace.Attest.Verifier.Signed.{IsSigned}
use pask_workspace.Attest.Verifier.Checked.{IsChecked}
use pask_workspace.Attest.Verifier.Authentic.{verify-ok}

from_str_iff_example :
    (from_str (ascii "arm.cca") ≡ ok TeeClass.arm_cca) ↔ (as_str TeeClass.arm_cca ≡ ascii "arm.cca")
from_str_iff_example = from_str_iff (ascii "arm.cca") TeeClass.arm_cca

system_time_from_unix_nanos_iff_example :
    (system_time_from_unix_nanos (ℤ.negsuc 0) ≡ some 9223372036854775807999999999)
    ↔ IsInstant (ℤ.negsuc 0) 9223372036854775807999999999
system_time_from_unix_nanos_iff_example =
    system_time_from_unix_nanos_iff (ℤ.negsuc 0) 9223372036854775807999999999

abbrev window : ValidityWindow
window = record { not_before = 100000000000; not_after = 200000000000 }

check_clock_lem_example :
    ((check_clock window 260000000000 ≡ ok tt) ↔ (
      (100000000000 ≤ 260000000000 + max_clock_skew)
      × (260000000000 ≤ 200000000000 + max_clock_skew)))
    × ((check_clock window 260000000000
          ≡ err (AttestationError.clock_skew 100000000000 260000000000))
        ↔ (260000000000 + max_clock_skew < 100000000000))
    × ((check_clock window 260000000000
          ≡ err (AttestationError.expired_evidence 200000000000 260000000000))
        ↔ ((100000000000 ≤ 260000000000 + max_clock_skew)
            × (200000000000 + max_clock_skew < 260000000000)))
check_clock_lem_example = check_clock_lem window 260000000000

abbrev signature : List ℕ
signature = replicate 64 0

-- The signed bytes are the canonical form of one number.
abbrev quote : List ℕ
quote = frame_version ++ (49 ∷ signature)

parse_frame_iff_example :
    (parse_frame quote ≡ ok (49 ∷ [], signature)) ↔ IsFrame quote (49 ∷ []) signature
parse_frame_iff_example = parse_frame_iff quote (49 ∷ []) signature

abbrev digest : Text
digest = sha256_prefixed (λ bytes. sample_digest) []

abbrev raw : RawQuote
raw = record {
  spec = some (ascii "wilder.attest/0.1");
  tee_class = some (ascii "arm.cca");
  measured_boot = some (record {
    chain = some digest;
    components = some (record { name = some (ascii "kernel"); digest = some digest } ∷ []);
  });
  platform_evidence = some (record { encoding = some (ascii "opaque/1"); digest = some digest });
  sealed_evidence =
      some
        (record { digest = some digest; size_bytes = some 5; encoding = some (ascii "opaque/1") });
  witness_key = some (ascii "w");
  validity = some (record { not_before = some (ascii "a"); not_after = some (ascii "ab") });
}

-- A date is read as its length.
abbrev nanos : Text → Result Text ℤ
nanos [] = err (ascii "empty")
nanos (c ∷ []) = ok (ℤ.pos 1)
nanos (c ∷ d ∷ text) = ok (ℤ.pos 2)

abbrev libraries : QuoteLibraries
libraries = record {
  boot = record {
    sha256 = λ bytes. sample_digest;
    components_json = λ components. ok [];
    from_slice = λ bytes. ok (Json.number (Number.unsigned 1));
    text = sample_text;
  };
  parse_instant = nanos;
  parse_quote = λ bytes. ok raw;
  Key = Unit {0};
  verify_strict = λ key bytes signature. true;
}

abbrev attestation : Attestation
attestation = record {
  tee_class = TeeClass.arm_cca;
  measured_boot = record {
    chain = digest;
    components = record { name = ascii "kernel"; digest = digest } ∷ [];
  };
  platform_evidence = record { encoding = ascii "opaque/1"; digest = digest };
  sealed_evidence = record { digest = digest; size_bytes = 5; encoding = ascii "opaque/1" };
  witness_key = ascii "w";
  validity = record { not_before = unix_epoch + 1; not_after = unix_epoch + 2 };
}

accepted : verify libraries ((ascii "w", tt) ∷ []) quote (ascii "t") ≡ ok attestation
unfolding verify parse_frame split_frame authenticate key_for read_claims checked_boot
    checked_validity build_validity component_claims build_measured_boot build_platform_evidence
    build_sealed_evidence platform_from_wire sealed_from_wire from_wire components_from_wire
    boot_bytes verify_boot_chain canonicalize_json canonical write_number sha256_prefixed hex
    validate_sha256 all_hex is_lower_hex parse_rfc3339 from_rfc3339 ordered_window check_clock
    duration_since system_time_from_unix_nanos checked_add duration from_str as_str all_classes
accepted = refl

verify-ok_example :
    (jcs : List ℕ) × (signature : List ℕ) × (read : RawQuote) × IsFrame quote jcs signature
    × (libraries.parse_quote jcs ≡ ok read)
    × IsSigned libraries ((ascii "w", tt) ∷ []) jcs signature read attestation.witness_key
    × IsChecked libraries read (ascii "t") attestation
verify-ok_example =
    verify-ok libraries ((ascii "w", tt) ∷ []) quote (ascii "t") attestation accepted
