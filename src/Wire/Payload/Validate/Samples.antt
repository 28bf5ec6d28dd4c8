-- ===== src/Wire/Payload/Validate/Samples.antt =====
-- A payload that validates, over stand-ins for the libraries, and receipts of one chain.
use pask_workspace.Prelude.{
  ℕ, suc, ◌+◌, ◌≡◌, refl, true, Option, none, some, List, [], ◌∷◌, ◌++◌, Text, ascii, replicate, ok,
  inl,
}
use pask_workspace.Wire.Digest.{hex, is_lower_hex, all_hex, validate_sha256, sha256_prefixed}
use pask_workspace.Wire.Json.{
  Json, Items, Fields, JsonText, canonical, sort_entries, insert_entry, lex_lt, write_entries,
  write_number, join, get_field, set_field, remove_field, Number,
}
use pask_workspace.Wire.Payload.Fields.{
  Payload, SiteClass, ActorClass, OutcomeClass, EnvelopeConformance, AdapterMode, AckProvenance,
  BindingMode, IssuerAffiliation, is_supported_spec, spec_version_07,
}
use pask_workspace.Wire.Payload.Strings.{is_unrecognized}
use pask_workspace.Wire.Payload.Validate.{
  Libraries, all_nonempty, required_strings, validate_components, validate_content_digest,
  validate_link, parsed, validate_utc, validate_optional, ordered, validate_optional_window,
  canonicalize_value, without_hash, expected_chain_hash, validate_containment, validate_chain,
  validate_digests, validate_window, validate_validity, validate_strings, validate,
  check_spec_version, from_json,
}
use pask_workspace.Wire.Payload.Validate.Valid.{IsValid, validate-IsValid, from_json-IsValid}

-- The digest of every input, and its text.
abbrev pub sample_digest : List ℕ
sample_digest = replicate 32 171

abbrev pub digest_text : Text
digest_text = ascii "sha256:abababababababababababababababababababababababababababababababab"

abbrev pub sample_text : JsonText
sample_text = record {
  quote = λ t. ok (34 ∷ (t ++ (34 ∷ [])));
  decimal = λ n. (48 + n) ∷ [];
  is_finite = λ bits. true;
  format_finite = λ bits. [];
  utf16 = λ t. t;
}

-- A timestamp stands for its length.
abbrev pub instant : Text → ℕ
instant [] = 0
instant (c ∷ t) = suc (instant t)

abbrev pub sample : ℕ → Option Text → IssuerAffiliation → Payload
sample seq prev affiliation = record {
  spec = spec_version_07;
  id = ascii "r";
  ts = ascii "22Z";
  issuer_affiliation = affiliation;
  site = record {
    id = ascii "s";
    class = SiteClass.residential;
    envelope = record {
      id = ascii "e";
      digest = digest_text;
      geobounds = none;
      temporal = record { starts = none; ends = some (ascii "22Z") };
    };
  };
  actor = record { id = ascii "a"; class = ActorClass.crew; operator = ascii "o" };
  engagement = record {
    id = ascii "g";
    window = record { start = ascii "1Z"; end = ascii "22Z" };
    type = ascii "t";
    outcome_class = OutcomeClass.completed;
    envelope_conformance = EnvelopeConformance.within;
    evidence_digest = digest_text;
    content_digest = some Json.null;
  };
  attestation = record {
    binding_mode = BindingMode.direct_witness;
    tee_class = ascii "arm.cca";
    measured_boot = record {
      chain = digest_text;
      components = record { name = ascii "boot"; digest = digest_text } ∷ [];
    };
    platform_evidence = record { encoding = ascii "opaque/1"; digest = digest_text };
    sealed_evidence = record { digest = digest_text; size_bytes = 1; encoding = ascii "opaque/1" };
    witness_key = ascii "k";
    validity = record { not_before = ascii "1Z"; not_after = ascii "333Z" };
  };
  adapter = record {
    system = ascii "buildium";
    endpoint = ascii "42";
    posted_at = ascii "22Z";
    ack_digest = digest_text;
    ack_provenance = AckProvenance.third_party;
    mode = AdapterMode.write_only;
  };
  chain = record { seq = seq; prev_hash = prev; hash = digest_text };
}

abbrev pub genesis : Payload
genesis = sample 0 none IssuerAffiliation.independent

abbrev pub second : Payload
second = sample 1 (some digest_text) IssuerAffiliation.affiliated

abbrev pub third : Payload
third = sample 2 (some digest_text) IssuerAffiliation.affiliated

-- `from_slice` reads everything as the first receipt.
abbrev pub sample_libraries : Libraries
sample_libraries = record {
  sha256 = λ bytes. sample_digest;
  parse_rfc3339 = λ t. some (instant t);
  parse_payload = λ bytes. ok genesis;
  parse_spec = λ bytes. some spec_version_07;
  to_value = λ p. ok (
      Json.object (
        Fields.field (ascii "id") (Json.string p.id) (
          Fields.field (ascii "chain")
            (Json.object (
              Fields.field (ascii "seq") (Json.number (Number.unsigned p.chain.seq))
                (Fields.field (ascii "hash") (Json.string p.chain.hash) Fields.end)))
            Fields.end)));
  text = sample_text;
}

-- The canonical form has its keys in order and no `hash` in `chain`.
chain_canonical :
    canonicalize_value sample_libraries (
      Json.object (
        Fields.field (ascii "id") (Json.string (ascii "r")) (
          Fields.field
            (ascii "chain")
            (Json.array (Items.cons (Json.bool true) (Items.cons Json.null Items.nil)))
            Fields.end)))
    ≡ ok (ascii "{\"chain\":[true,null],\"id\":\"r\"}")
unfolding canonicalize_value canonical sort_entries insert_entry lex_lt write_entries join
chain_canonical = refl

genesis_parses : from_json sample_libraries [] ≡ ok genesis
unfolding from_json check_spec_version is_supported_spec validate validate_strings is_unrecognized
    all_nonempty required_strings validate_utc parsed validate_optional_window validate_optional
    ordered validate_window validate_digests validate_content_digest validate_components
    validate_validity validate_containment validate_chain validate_link expected_chain_hash
    without_hash canonicalize_value validate_sha256 all_hex is_lower_hex hex sha256_prefixed
    canonical sort_entries insert_entry lex_lt write_entries write_number join get_field set_field
    remove_field
genesis_parses = refl

genesis_validates : validate sample_libraries genesis ≡ ok tt
unfolding is_supported_spec validate validate_strings is_unrecognized all_nonempty required_strings
    validate_utc parsed validate_optional_window validate_optional ordered validate_window
    validate_digests validate_content_digest validate_components validate_validity
    validate_containment validate_chain validate_link expected_chain_hash without_hash
    canonicalize_value validate_sha256 all_hex is_lower_hex hex sha256_prefixed canonical
    sort_entries insert_entry lex_lt write_entries write_number join get_field set_field
    remove_field
genesis_validates = refl

second_validates : validate sample_libraries second ≡ ok tt
unfolding is_supported_spec validate validate_strings is_unrecognized all_nonempty required_strings
    validate_utc parsed validate_optional_window validate_optional ordered validate_window
    validate_digests validate_content_digest validate_components validate_validity
    validate_containment validate_chain validate_link expected_chain_hash without_hash
    canonicalize_value validate_sha256 all_hex is_lower_hex hex sha256_prefixed canonical
    sort_entries insert_entry lex_lt write_entries write_number join get_field set_field
    remove_field
second_validates = refl

pub genesis-IsValid : IsValid sample_libraries genesis
genesis-IsValid = validate-IsValid sample_libraries genesis genesis_validates

pub second-IsValid : IsValid sample_libraries second
second-IsValid = validate-IsValid sample_libraries second second_validates

from_json-IsValid_example : IsValid sample_libraries genesis
from_json-IsValid_example = from_json-IsValid sample_libraries [] genesis (inl genesis_parses)
