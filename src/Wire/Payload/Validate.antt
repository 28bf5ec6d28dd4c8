-- ===== src/Wire/Payload/Validate.antt =====
-- crates/pask-wire/src/payload.rs: `Payload::validate` and the functions that parse a payload.
-- Parameters stand for the crates sha2, time and serde_json.
pub mod Rules
pub mod Valid
pub mod Samples
use pask_workspace.Prelude.{
  ℕ, zero, suc, Bool, true, false, not, ◌&&◌, ◌||◌, List, [], ◌∷◌, Option, none, some, String, Text,
  ascii, ends_with, is_empty, bytes_eq, ltb, leb, if◌then◌else◌, Result, ok, err, ◌>>=◌, ◌>>◌,
  guard,
}
use pask_workspace.Wire.Error.{Error}
use pask_workspace.Wire.Digest.{sha256_prefixed, validate_sha256}
use pask_workspace.Wire.Json.{Json, JsonText, canonical, get_field, set_field, remove_field}
use pask_workspace.Wire.Payload.Fields.{
  Payload, MeasuredBootComponent, spec_version_06, spec_version_07, is_supported_spec,
}
use pask_workspace.Wire.Payload.Strings.{is_unrecognized}

pub record Libraries : Type 0 where
  -- sha2
  pub sha256 : List ℕ → List ℕ
  -- time: `OffsetDateTime::parse` for RFC 3339, as nanoseconds from the earliest instant it has
  pub parse_rfc3339 : Text → Option ℕ
  -- serde_json: `from_slice` at the type `Payload`, at the probe `SpecOnly`, and `to_value`
  pub parse_payload : List ℕ → Result String Payload
  pub parse_spec : List ℕ → Option Text
  pub to_value : Payload → Result String Json
  -- what `write_canonical` calls
  pub text : JsonText

abbrev pub json_error : {A : Type 0} → Result String A → Result Error A
json_error (ok a) = ok a
json_error (err message) = err (Error.json message)

pub all_nonempty : List Text → Bool
all_nonempty [] = true
all_nonempty (x ∷ xs) = not (is_empty x) && all_nonempty xs

-- The strings that `validate` requires not to be empty.
pub required_strings : Payload → List Text
required_strings p =
    p.id ∷ p.site.id ∷ p.site.envelope.id ∷ p.actor.id ∷ p.actor.operator ∷ p.engagement.id
    ∷ p.engagement.type ∷ p.attestation.tee_class ∷ p.attestation.platform_evidence.encoding
    ∷ p.attestation.sealed_evidence.encoding ∷ p.attestation.witness_key ∷ p.adapter.system
    ∷ p.adapter.endpoint ∷ []

pub validate_components : List MeasuredBootComponent → Result Error (Unit {0})
validate_components [] = ok tt
validate_components (c ∷ cs) = do
  guard (not (is_empty c.name)) (Error.validation "measured-boot component name must not be empty")
  validate_sha256 c.digest
  validate_components cs

-- The match on `content_digest`, for 0.7 and for the legacy profiles.
pub validate_content_digest : Bool → Option Json → Result Error (Unit {0})
validate_content_digest true (some Json.null) = ok tt
validate_content_digest true (some (Json.string digest)) = validate_sha256 digest
validate_content_digest true _ =
    err (Error.validation "0.7 requires explicit null or SHA-256 contentDigest")
validate_content_digest false none = ok tt
validate_content_digest false (some _) =
    err (Error.validation "contentDigest is not permitted in legacy profiles")

-- The match on `(seq, prev_hash)`.
pub validate_link : ℕ → Option Text → Result Error (Unit {0})
validate_link zero none = ok tt
validate_link zero (some previous) = err (Error.validation "sequence zero must have null prevHash")
validate_link (suc seq) (some previous) = validate_sha256 previous
validate_link (suc seq) none = err (Error.validation "nonzero sequence must include prevHash")

module _ (lib : Libraries) where
  -- `OffsetDateTime::parse(value, &Rfc3339).map_err(…)`
  pub parsed : Option ℕ → Result Error ℕ
  parsed none = err (Error.validation "timestamp must be valid RFC 3339")
  parsed (some instant) = ok instant

  pub validate_utc : Text → Result Error ℕ
  validate_utc value = do
    guard (ends_with b'Z' value) (Error.validation "timestamp must use UTC Z notation")
    parsed (lib.parse_rfc3339 value)

  -- `starts.map(validate_utc).transpose()?`
  pub validate_optional : Option Text → Result Error (Option ℕ)
  validate_optional none = ok none
  validate_optional (some value) = do instant ← validate_utc value; ok (some instant)

  pub ordered : Option ℕ → Option ℕ → Bool
  ordered (some start) (some end) = leb start end
  ordered _ _ = true

  pub validate_optional_window : Option Text → Option Text → Result Error (Unit {0})
  validate_optional_window starts ends = do
    start ← validate_optional starts
    end ← validate_optional ends
    guard (ordered start end) (Error.validation "temporal end precedes its start")
    ok tt

  pub canonicalize_value : Json → Result Error Text
  canonicalize_value value = canonical lib.text value

  -- `value.get_mut("chain")`, as an object, and `chain.remove("hash")`.
  pub without_hash : Json → Result Error Json
  without_hash (Json.object fields) = elim (get_field (ascii "chain") fields) [
    | some (Json.object chain) ↦ ok (
        Json.object
          (set_field (ascii "chain") (Json.object (remove_field (ascii "hash") chain)) fields))
    | _ ↦ err (Error.validation "chain must be an object")
  ]
  without_hash _ = err (Error.validation "chain must be an object")

  pub expected_chain_hash : Payload → Result Error Text
  expected_chain_hash p = do
    value ← json_error (lib.to_value p)
    unhashed ← without_hash value
    canonical ← canonicalize_value unhashed
    ok (sha256_prefixed lib.sha256 canonical)

  -- `ts` inside the validity interval, for 0.6 and 0.7.
  pub validate_containment : Payload → ℕ → ℕ → Result Error (Unit {0})
  validate_containment p validity_start validity_end =
      if bytes_eq p.spec spec_version_06 || bytes_eq p.spec spec_version_07
      then (do
        ts ← validate_utc p.ts
        guard (leb validity_start ts && leb ts validity_end) (
            Error.validation
              "receipt-issuance timestamp is outside the attestation validity interval")
        ok tt)
      else ok tt

  pub validate_chain : Payload → Result Error (Unit {0})
  validate_chain p = do
    validate_link p.chain.seq p.chain.prev_hash
    validate_sha256 p.chain.hash
    expected ← expected_chain_hash p
    guard (bytes_eq p.chain.hash expected) (Error.validation "chain.hash does not match payload")
    ok tt

  pub validate_digests : Payload → Result Error (Unit {0})
  validate_digests p = do
    validate_sha256 p.site.envelope.digest
    validate_sha256 p.engagement.evidence_digest
    validate_content_digest (bytes_eq p.spec spec_version_07) p.engagement.content_digest
    validate_sha256 p.attestation.measured_boot.chain
    validate_sha256 p.attestation.platform_evidence.digest
    validate_sha256 p.attestation.sealed_evidence.digest
    validate_components p.attestation.measured_boot.components

  pub validate_window : Payload → Result Error (Unit {0})
  validate_window p = do
    start ← validate_utc p.engagement.window.start
    end ← validate_utc p.engagement.window.end
    guard (leb start end) (Error.validation "engagement window end precedes its start")
    ok tt

  pub validate_validity : Payload → Result Error (Unit {0})
  validate_validity p = do
    validity_start ← validate_utc p.attestation.validity.not_before
    validity_end ← validate_utc p.attestation.validity.not_after
    guard (ltb validity_start validity_end)
        (Error.validation "attestation validity notAfter must be strictly later than notBefore")
    validate_containment p validity_start validity_end

  pub validate_strings : Payload → Result Error (Unit {0})
  validate_strings p = do
    guard (is_supported_spec p.spec) (Error.validation "unsupported spec version")
    guard (not (is_unrecognized p.attestation.binding_mode))
        (Error.validation "unrecognized attestation binding mode")
    guard (all_nonempty (required_strings p)) (Error.validation "required string must not be empty")
    ok tt

  pub validate : Payload → Result Error (Unit {0})
  validate p = do
    validate_strings p
    ts ← validate_utc p.ts
    validate_optional_window p.site.envelope.temporal.starts p.site.envelope.temporal.ends
    validate_window p
    posted_at ← validate_utc p.adapter.posted_at
    validate_digests p
    validate_validity p
    validate_sha256 p.adapter.ack_digest
    validate_chain p

  -- A document with no readable `spec` is left to the full parse.
  pub check_spec_version : List ℕ → Result Error (Unit {0})
  check_spec_version bytes = elim (lib.parse_spec bytes) [
    | some spec ↦
        if is_supported_spec spec then ok tt else err (Error.validation "unsupported spec version")
    | none ↦ ok tt
  ]

  pub from_json : List ℕ → Result Error Payload
  from_json bytes = do
    check_spec_version bytes
    payload ← json_error (lib.parse_payload bytes)
    validate payload
    ok payload

  pub update_chain_hash : Payload → Result Error Payload
  update_chain_hash p = do
    hash ← expected_chain_hash p
    ok (record p { chain = record (p.chain) { hash = hash } })

  pub from_json_for_production : List ℕ → Result Error Payload
  from_json_for_production bytes = do
    check_spec_version bytes
    parsed ← json_error (lib.parse_payload bytes)
    payload ← update_chain_hash parsed
    validate payload
    ok payload

  pub to_jcs : Payload → Result Error Text
  to_jcs p = do value ← json_error (lib.to_value p); canonicalize_value value

  pub parse_canonical : List ℕ → Result Error Payload
  parse_canonical bytes = do
    payload ← from_json bytes
    canonical ← to_jcs payload
    guard (bytes_eq canonical bytes) Error.non_canonical_payload
    ok payload
