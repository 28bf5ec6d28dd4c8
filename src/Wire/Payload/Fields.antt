-- ===== src/Wire/Payload/Fields.antt =====
-- crates/pask-wire/src/payload.rs: the members of a payload.
use pask_workspace.Prelude.{ℕ, Bool, List, Option, Text, ascii, bytes_eq, ◌||◌}
use pask_workspace.Wire.Json.{Json}

abbrev pub spec_version : Text
spec_version = ascii "wilder.pser/0.5"

abbrev pub spec_version_06 : Text
spec_version_06 = ascii "wilder.pser/0.6"

abbrev pub spec_version_07 : Text
spec_version_07 = ascii "wilder.pser/0.7"

unfoldable pub is_supported_spec : Text → Bool
is_supported_spec spec =
    bytes_eq spec spec_version || bytes_eq spec spec_version_06 || bytes_eq spec spec_version_07

pub data SiteClass : Type 0 where
  residential industrial healthcare infra other : SiteClass

pub data ActorClass : Type 0 where
  autonomous semi_autonomous human crew : ActorClass

pub data OutcomeClass : Type 0 where
  completed aborted refused errored observed_only : OutcomeClass

pub data EnvelopeConformance : Type 0 where
  within exceeded_temporal exceeded_geo exceeded_actor unknown : EnvelopeConformance

pub data AdapterMode : Type 0 where
  write_only : AdapterMode

pub data AckProvenance : Type 0 where
  third_party issuer_asserted no_acknowledgement : AckProvenance
  unrecognized : Text → AckProvenance

pub data BindingMode : Type 0 where
  direct_witness delegated_witness : BindingMode
  unrecognized : Text → BindingMode

pub data IssuerAffiliation : Type 0 where
  affiliated independent not_disclosed : IssuerAffiliation
  unrecognized : Text → IssuerAffiliation

pub record Temporal : Type 0 where
  pub starts : Option Text
  pub ends : Option Text

pub record SiteEnvelope : Type 0 where
  pub id : Text
  pub digest : Text
  pub geobounds : Option Text
  pub temporal : Temporal

pub record Site : Type 0 where
  pub id : Text
  pub class : SiteClass
  pub envelope : SiteEnvelope

pub record Actor : Type 0 where
  pub id : Text
  pub class : ActorClass
  pub operator : Text

pub record Window : Type 0 where
  pub start : Text
  pub end : Text

pub record Engagement : Type 0 where
  pub id : Text
  pub window : Window
  pub type : Text
  pub outcome_class : OutcomeClass
  pub envelope_conformance : EnvelopeConformance
  pub evidence_digest : Text
  pub content_digest : Option Json

pub record MeasuredBootComponent : Type 0 where
  pub name : Text
  pub digest : Text

pub record MeasuredBoot : Type 0 where
  pub chain : Text
  pub components : List MeasuredBootComponent

pub record PlatformEvidence : Type 0 where
  pub encoding : Text
  pub digest : Text

pub record Validity : Type 0 where
  pub not_before : Text
  pub not_after : Text

pub record SealedEvidence : Type 0 where
  pub digest : Text
  pub size_bytes : ℕ
  pub encoding : Text

pub record Attestation : Type 0 where
  pub binding_mode : BindingMode
  pub tee_class : Text
  pub measured_boot : MeasuredBoot
  pub platform_evidence : PlatformEvidence
  pub sealed_evidence : SealedEvidence
  pub witness_key : Text
  pub validity : Validity

pub record Adapter : Type 0 where
  pub system : Text
  pub endpoint : Text
  pub posted_at : Text
  pub ack_digest : Text
  pub ack_provenance : AckProvenance
  pub mode : AdapterMode

pub record Chain : Type 0 where
  pub seq : ℕ
  pub prev_hash : Option Text
  pub hash : Text

pub record Payload : Type 0 where
  pub spec : Text
  pub id : Text
  pub ts : Text
  pub issuer_affiliation : IssuerAffiliation
  pub site : Site
  pub actor : Actor
  pub engagement : Engagement
  pub attestation : Attestation
  pub adapter : Adapter
  pub chain : Chain
