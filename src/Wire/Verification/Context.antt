-- ===== src/Wire/Verification/Context.antt =====
-- crates/pask-wire/src/receipt_verification.rs: `bounded_context`.
use pask_workspace.Prelude.{
  ℕ, ltb, leb, ◌&&◌, ◌||◌, not, if◌then◌else◌, Bool, true, false, List, [], ◌∷◌, Option, none, some,
  Text, length,
}
use pask_workspace.Wire.Verification.{
  BindingProvenance, TsPublicKey, TsKeyAssociation, TsTrustContext, VerificationLimits,
}

abbrev pub fits : ℕ → Option (List ℕ) → Bool
fits max_bytes none = true
fits max_bytes (some field) = leb (length field) max_bytes

abbrev pub all_fit : ℕ → List Text → Bool
all_fit max_bytes [] = true
all_fit max_bytes (field ∷ fields) = leb (length field) max_bytes && all_fit max_bytes fields

abbrev pub key_fits : ℕ → TsPublicKey → Bool
key_fits max_bytes (TsPublicKey.ed25519 key) = true
key_fits max_bytes (TsPublicKey.unsupported_key key_type bytes) =
    leb (length key_type) max_bytes && leb (length bytes) max_bytes

abbrev pub provenance_fits : ℕ → BindingProvenance → Bool
provenance_fits max_bytes BindingProvenance.missing = true
provenance_fits max_bytes (BindingProvenance.unauthenticated origin) = leb (length origin) max_bytes
provenance_fits max_bytes (BindingProvenance.caller_authenticated authority evidence_ref) =
    leb (length authority) max_bytes && leb (length evidence_ref) max_bytes

unfoldable pub association_fits : ℕ → TsKeyAssociation → Bool
association_fits max_bytes a =
    leb (length a.service_identity) max_bytes
    && fits max_bytes a.kid_hint
    && key_fits max_bytes a.public_key
    && provenance_fits max_bytes a.provenance

unfoldable pub associations_fit : ℕ → List TsKeyAssociation → Bool
associations_fit max_bytes [] = true
associations_fit max_bytes (a ∷ rest) =
    association_fits max_bytes a && associations_fit max_bytes rest

unfoldable pub bounded_context : TsTrustContext → VerificationLimits → Bool
bounded_context c l =
    if ltb l.max_associations (length c.associations)
      || ltb l.max_accepted_identities (length c.accepted_ts_identities)
    then false
    else if not (all_fit l.max_trust_field_bytes c.accepted_ts_identities)
        || not (fits l.max_trust_field_bytes c.provisioned_by)
    then false
    else associations_fit l.max_trust_field_bytes c.associations
