-- ===== src/Wire/Statement/Runs.antt =====
-- A statement with a receipt, in its bytes, whose application policy passes.
use pask_workspace.Prelude.{
  ℕ, ℤ, ◌≡◌, refl, ◌==◌, if◌then◌else◌, true, false, List, [], ◌∷◌, ◌++◌, none, some, replicate,
  Text, ascii, ok,
}
use pask_workspace.Wire.Cbor.{Value, Values, Entries, CborLibrary, unsigned}
use pask_workspace.Wire.Json.{Json, Fields}
use pask_workspace.Wire.Receipt.{
  sig_structure, signed_bytes, check_signature, check_root, try_proofs, verify_with, verify_decoded,
}
use pask_workspace.Wire.Inspection.{default_limits, policy_valid}
use pask_workspace.Wire.Inspection.Inspect.{
  inspect_scitt_receipt, inspect_embedded, inspect_proofs, check_vdp, inspect_rest, inspect_headers,
  inspect_protected, inspect, initial, reported,
}
use pask_workspace.Wire.Verification.{
  TrustInputOrigin, BindingProvenance, TsPublicKey, default_verification_limits, limits_valid,
}
use pask_workspace.Wire.Verification.Samples.{
  sample_text, entry_of, protected_map, proof_value, receipt_value, receipt_bytes, sample_context,
}
use pask_workspace.Wire.Verification.Run.{
  verify_scitt_receipt, initial_report, by_indices, by_signer, conclude, after_proofs, run_proofs,
  after_keys, run_receipt, run_candidate, run,
}
use pask_workspace.Wire.Cbor.Labels.{items, pairs, signed, map_entry, cose_sign1_items}
use pask_workspace.Wire.Cbor.Equal.{value_eq, values_eq, entries_eq}
use pask_workspace.Wire.Cbor.Unique.{
  equal_key, all_in, zip_equal, check_unique_maps, check_entries, check_values,
}
use pask_workspace.Wire.Entry.{
  unwrap_tag, statement_items, entry_signature, entry_payload, entry_unprotected, entry_protected,
  candidate, derive_candidate_entry,
}
use pask_workspace.Wire.Merkle.{
  skip_levels, sibling_is_left, climb, leaf_hash, node_hash, combine, walk, reconstruct_root,
}
use pask_workspace.Wire.Proof.{
  path_hashes, proof_path, proof_fields, proof_elements, from_wrapped_cbor,
}
use pask_workspace.Wire.Receipt.Decode.{
  proof_list, receipt_payload, four, decode_proofs, protected_header, vdp_proofs, from_elements,
  from_cose_sign1, verify_inclusion,
}
use pask_workspace.Wire.Inspection.Claims.{
  labels, x5t_fits, certificates, check_certificates, check_chain, x509_shape, required_integer,
  claims_map, claim_text, check_kid, claims_of_texts, check_texts, checked_claims, inspect_claims,
  check_nodes, check_path, proof_parts, inspect_proof,
}
use pask_workspace.Wire.Inspection.Report.{
  new_finding, passed_finding, skipped_finding, later_finding, problem_finding, place_finding,
  apply_problem, apply_fault,
}
use pask_workspace.Wire.Inspection.Headers.{
  parsed, tagged, elements, envelope_parts, overlap, not_overridden, header_positions,
  check_critical, critical_labels, critical_unknown, vdp_map, listed_proofs, other_proofs,
  x509_support, support_for,
}
use pask_workspace.Wire.Scan.Utf8.{utf8_count, char_count}
use pask_workspace.Wire.Scan.Roles.{
  byte_limit, array_limit, check_role, key_role, value_role, element_role, tag_role,
}
use pask_workspace.Wire.Scan.Atoms.{
  be, take_bytes, take_number, argument, characters_of, bump, start, chunk, chunks, string_body,
  count_claim, string_item,
}
use pask_workspace.Wire.Scan.Items.{
  kind, room_for, note_x509, simple_item, container_limit, check_count, entry_round, child, finish,
  item, children, check_end, scan,
}
use pask_workspace.Wire.Verification.Context.{association_fits, associations_fit, bounded_context}
use pask_workspace.Wire.Verification.Keys.{find_kid, note_present, configure, configure_keys}
use pask_workspace.Wire.Verification.Proofs.{
  signature_findings, verifying_keys, try_signature, check_proof, check_proofs, aggregate,
}
use pask_workspace.Wire.Verification.Associate.{
  is_distrusted, select, windows, accept, by_windows, at_time, associate_matching, associate,
}
use pask_workspace.Wire.Verification.Proofs.{is_passed}
use pask_workspace.Wire.Statement.{TransparentStatementPolicy, outer_limits_valid}
use pask_workspace.Wire.Statement.Issuer.{IssuerKeyInput, DigestTarget}
use pask_workspace.Wire.Statement.Subject.{SubjectPolicy}
use pask_workspace.Wire.Statement.Verify.{StatementInputs, StatementLibraries}
use pask_workspace.Wire.Statement.Approved.{passes, inspected_outer, json_site_profile, IsApproved}
use pask_workspace.Wire.Statement.Accepted.{verify_transparent_statement-IsApproved}
use pask_workspace.Wire.Statement.{outer_limits_valid}
use pask_workspace.Wire.Statement.Outer.{
  outer_elements, opened, outer_labels, outer_critical, with_parts, byte_elements, with_claims,
  with_container, after_critical, examine, inspect_outer, initial_outer,
  inspect_transparent_statement,
}
use pask_workspace.Wire.Statement.Issuer.{
  issuer_association, issuer_trust, after_signature, check_signed, check_issuer, check_digest,
}
use pask_workspace.Wire.Statement.Subject.{
  rows_from, by_rows, by_mapping, by_policy, subject_finding,
}
use pask_workspace.Wire.Statement.Verify.{
  acceptable_indices, subject_evidence, digest_policy, application_finding, json_field,
  included_site, receipt_outcome, receipt_outcomes, initial_statement, with_application,
  with_receipts, with_candidate, verify_transparent_statement,
}
use pask_workspace.Wire.Json.{
  lex_lt, join, insert_entry, sort_entries, write_entries, write_number, canonical, canonical_items,
  canonical_fields, canonicalize_json, get_field, remove_field, set_field,
}

-- {1: -8, 3: the profile, 15: {1: "a", 2: "b"}}
abbrev header_map : Value
header_map = Value.map (
    entry_of 1 (Value.integer (ℤ.negsuc 7)) (
      entry_of 3 (Value.text json_site_profile) (
        entry_of 15
          (Value.map (entry_of 1 (sample_text 97) (entry_of 2 (sample_text 98) Entries.end)))
          Entries.end)))

abbrev header_bytes : List ℕ
header_bytes =
    (163 ∷ 1 ∷ 39 ∷ 3 ∷ 120 ∷ 48 ∷ json_site_profile) ++ (15 ∷ 162 ∷ 1 ∷ 97 ∷ 97 ∷ 2 ∷ 97 ∷ 98 ∷ [])

abbrev payload : Text
payload = ascii "{\"site\":{\"id\":\"b\"}}"

-- [header, {394: [receipt]}, payload, h'06']
abbrev statement : List ℕ
statement =
    (132 ∷ 88 ∷ 62 ∷ header_bytes)
    ++ (((161 ∷ 25 ∷ 1 ∷ 138 ∷ 129 ∷ 88 ∷ 70 ∷ receipt_bytes) ++ (83 ∷ payload)) ++ (65 ∷ 6 ∷ []))

abbrev statement_value : Value
statement_value = Value.array (
    Values.cons (Value.bytes header_bytes) (
      Values.cons
        (Value.map (
          entry_of 394 (Value.array (Values.cons (Value.bytes receipt_bytes) Values.nil))
            Entries.end))
        (Values.cons (Value.bytes payload) (Values.cons (Value.bytes (6 ∷ [])) Values.nil))))

-- A reader that tells these five inputs apart by their first byte.
abbrev reader : CborLibrary
reader = record {
  from_reader = λ input. elim input [
    | [] ↦ none
    | b ∷ bs ↦
        if b == 210
        then some (receipt_value, [])
        else if b == 164
        then some (protected_map, [])
        else if b == 163
        then some (header_map, [])
        else if b == 131
        then some (proof_value, [])
        else some (statement_value, [])
  ];
  into_writer = λ value. some [];
}

abbrev libraries : StatementLibraries
libraries = record {
  verification = record {
    receipts = record {
      cbor = reader;
      sha256 = λ input. replicate 32 0;
      Key = List ℕ;
      Signature = List ℕ;
      from_slice = λ s. some s;
      verify = λ k m s. true;
    };
    uri = λ text. true;
    from_bytes = λ k. some k;
    verify_strict = λ k m s. true;
  };
  json_text = record {
    quote = λ t. ok (34 ∷ (t ++ (34 ∷ [])));
    decimal = λ n. [];
    is_finite = λ n. true;
    format_finite = λ n. [];
    utf16 = λ t. t;
  };
  from_slice = λ input. ok (
      Json.object (
        Fields.field (ascii "site")
          (Json.object (Fields.field (ascii "id") (Json.string (98 ∷ [])) Fields.end)) Fields.end));
}

abbrev policy : TransparentStatementPolicy
policy = record {
  strict_cross_map = false;
  max_statement_bytes = 1048576;
  max_receipts = 8;
  receipt = record {
    envelope = record { strict_cross_map = false; limits = default_limits };
    limits = default_verification_limits;
  };
}

abbrev source : BindingProvenance
source = BindingProvenance.caller_authenticated (97 ∷ []) (98 ∷ [])

abbrev key : IssuerKeyInput
key = record {
  public_key = TsPublicKey.ed25519 (replicate 32 1);
  algorithm = ℤ.negsuc 7;
  issuer = 97 ∷ [];
  provenance = source;
  origin = TrustInputOrigin.caller_authenticated_external;
  evaluation_time = some (ℤ.pos 5);
  valid_from = some (ℤ.pos 0);
  valid_until = some (ℤ.pos 10);
  explicitly_distrusted = false;
}

-- Everything is required.
abbrev inputs : StatementInputs
inputs = record {
  issuer = some key;
  services = sample_context;
  expected_digest = some (record {
    target = DigestTarget.payload_sha256;
    expected = replicate 32 0;
    digest_provenance = source;
    digest_source = TrustInputOrigin.caller_authenticated_external;
  });
  subject = SubjectPolicy.shared_json_site_v1;
  application = some (record {
    require_subject = true;
    require_all_receipts = true;
    require_authenticated_digest = true;
  });
}

approved : passes (verify_transparent_statement libraries statement inputs policy) ≡ true
unfolding unsigned items pairs signed map_entry cose_sign1_items value_eq values_eq entries_eq
    equal_key all_in zip_equal check_unique_maps check_entries check_values unwrap_tag
    statement_items entry_signature entry_payload entry_unprotected entry_protected candidate
    derive_candidate_entry skip_levels sibling_is_left climb leaf_hash node_hash combine walk
    reconstruct_root path_hashes proof_path proof_fields proof_elements from_wrapped_cbor
    sig_structure signed_bytes check_signature check_root try_proofs verify_with verify_decoded
    proof_list receipt_payload four decode_proofs protected_header vdp_proofs from_elements
    from_cose_sign1 verify_inclusion policy_valid labels x5t_fits certificates check_certificates
    check_chain x509_shape required_integer claims_map claim_text check_kid claims_of_texts
    check_texts checked_claims inspect_claims check_nodes check_path proof_parts inspect_proof
    new_finding passed_finding skipped_finding later_finding problem_finding place_finding
    apply_problem apply_fault parsed tagged elements envelope_parts overlap not_overridden
    header_positions check_critical critical_labels critical_unknown vdp_map listed_proofs
    other_proofs x509_support support_for inspect_embedded inspect_proofs check_vdp inspect_rest
    inspect_headers inspect_protected inspect initial reported inspect_scitt_receipt utf8_count
    char_count byte_limit array_limit check_role key_role value_role element_role tag_role be
    take_bytes take_number argument characters_of bump start chunk chunks string_body count_claim
    string_item kind room_for note_x509 simple_item container_limit check_count entry_round child
    finish item children check_end scan limits_valid association_fits associations_fit
    bounded_context find_kid note_present configure configure_keys signature_findings verifying_keys
    try_signature check_proof check_proofs aggregate is_distrusted select windows accept by_windows
    at_time associate_matching associate by_indices by_signer conclude after_proofs run_proofs
    after_keys run_receipt run_candidate run initial_report verify_scitt_receipt outer_limits_valid
    outer_elements opened outer_labels outer_critical with_parts byte_elements with_claims
    with_container after_critical examine inspect_outer initial_outer inspect_transparent_statement
    issuer_association issuer_trust after_signature check_signed check_issuer check_digest rows_from
    by_rows by_mapping by_policy subject_finding acceptable_indices subject_evidence digest_policy
    application_finding json_field included_site receipt_outcome receipt_outcomes initial_statement
    with_application with_receipts with_candidate verify_transparent_statement lex_lt join
    insert_entry sort_entries write_entries write_number canonical canonical_items canonical_fields
    canonicalize_json get_field remove_field set_field
approved = refl

verify_transparent_statement-IsApproved_example :
    (is_passed (inspected_outer libraries statement inputs policy).structure.status ≡ true)
    × (is_passed (inspected_outer libraries statement inputs policy).selected_policy.status ≡ true)
    × IsApproved libraries statement inputs policy
        (inspected_outer libraries statement inputs policy)
verify_transparent_statement-IsApproved_example =
    verify_transparent_statement-IsApproved libraries statement inputs policy approved
