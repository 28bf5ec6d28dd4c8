-- ===== src/Wire/Verification/Tests.antt =====
-- A receipt in its bytes, and a context that trusts its key.
use pask_workspace.Prelude.{
  ℕ, ◌≡◌, ◌≤◌, refl, ◌==◌, if◌then◌else◌, true, false, List, [], ◌∷◌, none, some, replicate,
}
use pask_workspace.Wire.Cbor.{Value, Values, Entries, CborLibrary, unsigned}
use pask_workspace.Wire.Verification.Samples.{
  protected_map, proof_value, receipt_value, receipt_bytes, sample_context,
}
use pask_workspace.Wire.Receipt.{
  sig_structure, signed_bytes, check_signature, check_root, try_proofs, verify_with, verify_decoded,
}
use pask_workspace.Wire.Inspection.{default_limits, policy_valid}
use pask_workspace.Wire.Inspection.Inspect.{
  inspect_scitt_receipt, inspect_embedded, inspect_proofs, check_vdp, inspect_rest, inspect_headers,
  inspect_protected, inspect, initial, reported,
}
use pask_workspace.Wire.Verification.{
  Report, ReceiptVerificationPolicy, default_verification_limits, VerificationLibraries,
  limits_valid,
}
use pask_workspace.Wire.Verification.Run.{
  verify_scitt_receipt, initial_report, by_indices, by_signer, conclude, after_proofs, run_proofs,
  after_keys, run_receipt, run_candidate, run,
}
use pask_workspace.Wire.Verification.Trust.{is_registrable}
use pask_workspace.Wire.Cbor.Labels.{items, pairs, signed, map_entry, cose_sign1_items}
use pask_workspace.Wire.Cbor.Equal.{value_eq, values_eq, entries_eq}
use pask_workspace.Wire.Cbor.Unique.{
  equal_key, all_in, zip_equal, check_unique_maps, check_entries, check_values,
}
use pask_workspace.Wire.Entry.{
  unwrap_tag, statement_items, entry_signature, entry_payload, entry_unprotected, entry_protected,
  candidate, derive_candidate_entry,
}
use pask_workspace.Wire.Merkle.{
  skip_levels, sibling_is_left, climb, leaf_hash, node_hash, combine, walk, reconstruct_root,
}
use pask_workspace.Wire.Proof.{
  path_hashes, proof_path, proof_fields, proof_elements, from_wrapped_cbor,
}
use pask_workspace.Wire.Receipt.Decode.{
  proof_list, receipt_payload, four, decode_proofs, protected_header, vdp_proofs, from_elements,
  from_cose_sign1, verify_inclusion,
}
use pask_workspace.Wire.Inspection.Claims.{
  labels, x5t_fits, certificates, check_certificates, check_chain, x509_shape, required_integer,
  claims_map, claim_text, check_kid, claims_of_texts, check_texts, checked_claims, inspect_claims,
  check_nodes, check_path, proof_parts, inspect_proof,
}
use pask_workspace.Wire.Inspection.Report.{
  new_finding, passed_finding, skipped_finding, later_finding, problem_finding, place_finding,
  apply_problem, apply_fault,
}
use pask_workspace.Wire.Inspection.Headers.{
  parsed, tagged, elements, envelope_parts, overlap, not_overridden, header_positions,
  check_critical, critical_labels, critical_unknown, vdp_map, listed_proofs, other_proofs,
  x509_support, support_for,
}
use pask_workspace.Wire.Scan.Utf8.{utf8_count, char_count}
use pask_workspace.Wire.Scan.Roles.{
  byte_limit, array_limit, check_role, key_role, value_role, element_role, tag_role,
}
use pask_workspace.Wire.Scan.Atoms.{
  be, take_bytes, take_number, argument, characters_of, bump, start, chunk, chunks, string_body,
  count_claim, string_item,
}
use pask_workspace.Wire.Scan.Items.{
  kind, room_for, note_x509, simple_item, container_limit, check_count, entry_round, child, finish,
  item, children, check_end, scan,
}
use pask_workspace.Wire.Verification.Context.{association_fits, associations_fit, bounded_context}
use pask_workspace.Wire.Verification.Keys.{find_kid, note_present, configure, configure_keys}
use pask_workspace.Wire.Verification.Proofs.{
  signature_findings, verifying_keys, try_signature, check_proof, check_proofs, aggregate,
}
use pask_workspace.Wire.Verification.Associate.{
  is_distrusted, select, windows, accept, by_windows, at_time, associate_matching, associate,
}
use pask_workspace.Wire.Verification.Accepted.{IsRegistered, verify_scitt_receipt-registrable}
use pask_workspace.Wire.Receipt.{VerifiedInclusion, Receipt, is_rfc9162}
use pask_workspace.Wire.Receipt.Verified.{IsProven}
use pask_workspace.Wire.Receipt.Included.{verify_inclusion-ok}
use pask_workspace.Wire.Verification.Candidates.{IsConfigured, configure_keys-IsConfigured}
use pask_workspace.Wire.Verification.Keys.{KeyTable}
use pask_workspace.Prelude.{ok}
use pask_workspace.Wire.Verification.Attempts.{verify_scitt_receipt-attempts}

-- [h'', {}, h'', h'']
abbrev statement_value : Value
statement_value = Value.array (
    Values.cons (Value.bytes []) (
      Values.cons (Value.map Entries.end)
        (Values.cons (Value.bytes []) (Values.cons (Value.bytes []) Values.nil))))

abbrev statement_bytes : List ℕ
statement_bytes = 132 ∷ 64 ∷ 160 ∷ 64 ∷ 64 ∷ []

-- A reader that tells these four inputs apart by their first byte.
abbrev sample_reader : CborLibrary
sample_reader = record {
  from_reader = λ input. elim input [
    | [] ↦ none
    | b ∷ bs ↦
        if b == 210
        then some (receipt_value, [])
        else if b == 164
        then some (protected_map, [])
        else if b == 131
        then some (proof_value, [])
        else some (statement_value, [])
  ];
  into_writer = λ value. some [];
}

abbrev sample_libraries : VerificationLibraries
sample_libraries = record {
  receipts = record {
    cbor = sample_reader;
    sha256 = λ input. replicate 32 0;
    Key = List ℕ;
    Signature = List ℕ;
    from_slice = λ s. some s;
    verify = λ k m s. true;
  };
  uri = λ text. true;
  from_bytes = λ k. some k;
  verify_strict = λ k m s. true;
}

abbrev sample_policy : ReceiptVerificationPolicy
sample_policy = record {
  envelope = record { strict_cross_map = false; limits = default_limits };
  limits = default_verification_limits;
}

abbrev sample_report : Report
sample_report =
    verify_scitt_receipt sample_libraries receipt_bytes statement_bytes sample_context sample_policy

registered : is_registrable sample_report ≡ true
unfolding unsigned items pairs signed map_entry cose_sign1_items value_eq values_eq entries_eq
    equal_key all_in zip_equal check_unique_maps check_entries check_values unwrap_tag
    statement_items entry_signature entry_payload entry_unprotected entry_protected candidate
    derive_candidate_entry skip_levels sibling_is_left climb leaf_hash node_hash combine walk
    reconstruct_root path_hashes proof_path proof_fields proof_elements from_wrapped_cbor
    sig_structure signed_bytes check_signature check_root try_proofs verify_with verify_decoded
    proof_list receipt_payload four decode_proofs protected_header vdp_proofs from_elements
    from_cose_sign1 verify_inclusion policy_valid labels x5t_fits certificates check_certificates
    check_chain x509_shape required_integer claims_map claim_text check_kid claims_of_texts
    check_texts checked_claims inspect_claims check_nodes check_path proof_parts inspect_proof
    new_finding passed_finding skipped_finding later_finding problem_finding place_finding
    apply_problem apply_fault parsed tagged elements envelope_parts overlap not_overridden
    header_positions check_critical critical_labels critical_unknown vdp_map listed_proofs
    other_proofs x509_support support_for inspect_embedded inspect_proofs check_vdp inspect_rest
    inspect_headers inspect_protected inspect initial reported inspect_scitt_receipt utf8_count
    char_count byte_limit array_limit check_role key_role value_role element_role tag_role be
    take_bytes take_number argument characters_of bump start chunk chunks string_body count_claim
    string_item kind room_for note_x509 simple_item container_limit check_count entry_round child
    finish item children check_end scan limits_valid association_fits associations_fit
    bounded_context find_kid note_present configure configure_keys signature_findings verifying_keys
    try_signature check_proof check_proofs aggregate is_distrusted select windows accept by_windows
    at_time associate_matching associate by_indices by_signer conclude after_proofs run_proofs
    after_keys run_receipt run_candidate run initial_report verify_scitt_receipt
registered = refl

verify_scitt_receipt-registrable_example :
    IsRegistered sample_libraries
      (initial_report sample_libraries receipt_bytes statement_bytes sample_context sample_policy)
      sample_report
verify_scitt_receipt-registrable_example =
    verify_scitt_receipt-registrable sample_libraries receipt_bytes statement_bytes sample_context
      sample_policy registered

verify_scitt_receipt-attempts_example : sample_report.signature_attempts ≤ 256
verify_scitt_receipt-attempts_example =
    verify_scitt_receipt-attempts sample_libraries receipt_bytes statement_bytes sample_context
      sample_policy

abbrev sample_inclusion : VerifiedInclusion
sample_inclusion = record { root = replicate 32 0; tree_size = 2; leaf_index = 0 }

included :
    verify_inclusion sample_libraries.receipts receipt_bytes (7 ∷ []) [] ≡ ok sample_inclusion
unfolding verify_inclusion from_cose_sign1 from_elements vdp_proofs protected_header decode_proofs
    receipt_payload proof_list four from_wrapped_cbor proof_elements proof_fields proof_path
    path_hashes unsigned map_entry cose_sign1_items signed items pairs check_unique_maps
    check_entries check_values equal_key all_in zip_equal value_eq values_eq entries_eq
    verify_decoded verify_with try_proofs check_root check_signature signed_bytes sig_structure
    reconstruct_root walk combine climb sibling_is_left node_hash skip_levels leaf_hash
included = refl

verify_inclusion-ok_example :
    (receipt : Receipt) × (from_cose_sign1 sample_reader receipt_bytes ≡ ok receipt)
    × (is_rfc9162 receipt.vds ≡ true)
    × IsProven sample_libraries.receipts receipt []
        (leaf_hash (λ input. replicate 32 0) (7 ∷ []))
        receipt.inclusion_proofs
        sample_inclusion
verify_inclusion-ok_example =
    verify_inclusion-ok sample_libraries.receipts receipt_bytes (7 ∷ []) [] sample_inclusion
      included

abbrev no_keys : KeyTable
no_keys = record { candidate_keys = []; key_configuration = [] }

configure_keys-IsConfigured_example :
    IsConfigured
      (λ input. replicate 32 0)
      16
      1
      (configure_keys
        (λ input. replicate 32 0)
        16
        (some (0 ∷ []))
        0
        sample_context.associations
        no_keys)
configure_keys-IsConfigured_example =
    configure_keys-IsConfigured (λ input. replicate 32 0) 16 (some (0 ∷ []))
      sample_context.associations
