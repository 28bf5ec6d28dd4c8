-- ===== src/Attest/Attestation.antt =====
-- crates/pask-attest/src/attestation.rs. `SealToken` is a type with one value, left out; the
-- accessors are the fields.
use pask_workspace.Prelude.{Text}
use pask_workspace.Attest.TeeClass.{TeeClass}
use pask_workspace.Attest.Boot.{MeasuredBoot}
use pask_workspace.Attest.Evidence.{PlatformEvidence, SealedEvidence}
use pask_workspace.Attest.Validity.{ValidityWindow}

pub record Attestation : Type 0 where
  pub tee_class : TeeClass
  pub measured_boot : MeasuredBoot
  pub platform_evidence : PlatformEvidence
  pub sealed_evidence : SealedEvidence
  pub witness_key : Text
  pub validity : ValidityWindow
