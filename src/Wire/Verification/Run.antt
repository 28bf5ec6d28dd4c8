-- ===== src/Wire/Verification/Run.antt =====
-- crates/pask-wire/src/receipt_verification.rs: `run` and `verify_scitt_receipt`.
use pask_workspace.Prelude.{
  ℕ, ◌*◌, ltb, leb, ◌&&◌, ◌||◌, not, if◌then◌else◌, Bool, true, false, List, [], ◌∷◌, Option, none,
  some, length, bytes_eq, get_elem?, Result, ok, err,
}
use pask_workspace.Wire.Error.{Error}
use pask_workspace.Wire.Entry.{derive_candidate_entry}
use pask_workspace.Wire.Merkle.{leaf_hash}
use pask_workspace.Wire.Receipt.{Receipt}
use pask_workspace.Wire.Receipt.Decode.{from_cose_sign1}
use pask_workspace.Wire.Inspection.{Status, Finding, Limits, default_limits}
use pask_workspace.Wire.Inspection.Report.{Envelope}
use pask_workspace.Wire.Inspection.Inspect.{inspect_scitt_receipt}
use pask_workspace.Wire.Scan.Machine.{Scan, done, stop}
use pask_workspace.Wire.Scan.Roles.{Role}
use pask_workspace.Wire.Scan.Items.{scan}
use pask_workspace.Wire.Verification.{
  VerificationLimits, limits_valid, TsTrustContext, ReceiptVerificationPolicy, VerifyingKeyEvidence,
  ProofVerification, Report, VerificationLibraries, finding, skipped, unestablished, failed, passed,
}
use pask_workspace.Wire.Verification.Context.{bounded_context}
use pask_workspace.Wire.Verification.Keys.{find_kid, KeyTable, Configured, configure_keys}
use pask_workspace.Wire.Verification.Proofs.{
  ProofTable, Checked, check_proofs, is_passed, aggregate,
}
use pask_workspace.Wire.Verification.Associate.{associate, set_both}

abbrev pub or_empty : Option (List ℕ) → List ℕ
or_empty none = []
or_empty (some bytes) = bytes

-- The limits of the statement's scan.
abbrev pub statement_limits : VerificationLimits → Limits
statement_limits l = record default_limits {
  max_receipt_bytes = l.max_statement_bytes;
  max_cbor_items = l.max_statement_cbor_items;
  max_cbor_nesting = l.max_statement_cbor_nesting;
  max_map_entries = l.max_statement_map_entries;
}

abbrev pub is_done : {A : Type 0} → Scan A → Bool
is_done (done a r) = true
is_done (stop fault n) = false

abbrev pub inspected : Envelope → Bool
inspected e =
    is_passed e.structure.status
    && is_passed e.required_claims.status
    && is_passed e.support.status
    && is_passed e.selected_policy.status

abbrev pub refuse_policy : Finding → Report → Report
refuse_policy f r = record r { selected_policy = f }

abbrev pub refuse_candidate : Finding → Report → Report
refuse_candidate f r = record r { candidate_derivation = f }

-- `checked_mul`, and the limit of the attempts.
abbrev pub too_many_attempts : ℕ → ℕ → ℕ → Bool
too_many_attempts keys proofs max_signature_attempts =
    leb 18446744073709551616 (keys * proofs) || ltb max_signature_attempts (keys * proofs)

-- All rows have the key that the first row has.
abbrev pub agree : List ℕ → List ProofVerification → Bool
agree indices [] = true
agree indices (p ∷ ps) = bytes_eq p.verifying_key_indices indices && agree indices ps

abbrev pub ambiguous : Report → Report
ambiguous r =
    set_both (failed "ambiguous_actual_verifying_key") (failed "ambiguous_actual_verifying_key") r

abbrev pub associate_key : Option VerifyingKeyEvidence → Report → Report
associate_key none r = r
associate_key (some k) r = associate k.public_key r

-- From the key indices of the first row on: one key, and the same in every row.
unfoldable pub by_indices : List ℕ → List ProofVerification → Report → Report
by_indices (index ∷ []) ps r =
    if agree (index ∷ []) ps
    then associate_key (get_elem? r.candidate_keys index) r
    else ambiguous r
by_indices _ ps r = ambiguous r

unfoldable pub by_signer : List ProofVerification → Report → Report
by_signer [] r = r
by_signer (p ∷ ps) r = by_indices p.verifying_key_indices (p ∷ ps) r

abbrev pub signatures : List ProofVerification → List Finding
signatures [] = []
signatures (p ∷ ps) = p.ts_signature ∷ signatures ps

abbrev pub inclusions : List ProofVerification → List Finding
inclusions [] = []
inclusions (p ∷ ps) = p.inclusion ∷ inclusions ps

-- From the end of the loop over the proofs on.
unfoldable pub conclude : Report → Report
conclude r =
    let summed : Report = record r {
      ts_signature = aggregate (signatures r.proofs) "all_proof_roots_signed";
      inclusion = aggregate (inclusions r.proofs) "all_proofs_authenticated";
    } in
    if not (is_passed summed.ts_signature.status) || not (is_passed summed.inclusion.status)
    then summed
    else by_signer r.proofs summed

abbrev pub set_table : ProofTable → Report → Report
set_table t r = record r { proofs = t.proofs; signature_attempts = t.signature_attempts }

unfoldable pub after_proofs : Checked → Report → Report
after_proofs (Checked.unencoded t) r =
    refuse_policy (failed "sig_structure_encoding") (set_table t r)
after_proofs (Checked.all_proofs t) r = conclude (set_table t r)

module _ (lib : VerificationLibraries) where
  -- From the candidate keys on.
  unfoldable pub run_proofs : Receipt → Report → Report
  run_proofs receipt r =
      let leaf = leaf_hash lib.receipts.sha256 (or_empty r.candidate_entry) in
      let signature = lib.receipts.from_slice (or_empty r.envelope.signature_bytes) in
      let start : ProofTable = record { proofs = []; signature_attempts = 0 } in
      if too_many_attempts (length r.candidate_keys) (length receipt.inclusion_proofs)
        r.policy.limits.max_signature_attempts
      then refuse_policy (failed "signature_attempt_limit") r
      else after_proofs
          (check_proofs lib (or_empty r.envelope.protected_bytes) leaf receipt.payload signature
            r.candidate_keys 0 receipt.inclusion_proofs start)
          r

  abbrev pub set_keys : KeyTable → Report → Report
  set_keys t r = record r {
    candidate_keys = t.candidate_keys;
    key_configuration = t.key_configuration;
  }

  unfoldable pub after_keys : Receipt → Configured → Report → Report
  after_keys receipt (Configured.too_many_keys t) r =
      refuse_policy (failed "candidate_key_limit") (set_keys t r)
  after_keys receipt (Configured.all_keys t) r = run_proofs receipt (set_keys t r)

  -- From the decoded receipt on.
  unfoldable pub run_receipt : Result Error Receipt → Report → Report
  run_receipt (err e) r = refuse_policy (failed "inspection_parser_disagreement") r
  run_receipt (ok receipt) r =
      after_keys receipt
        (configure_keys lib.receipts.sha256 r.policy.limits.max_candidate_keys
          (find_kid r.envelope.effective_headers) 0 r.trust_context.associations
          (record { candidate_keys = []; key_configuration = [] }))
        r

  -- From the candidate on.
  unfoldable pub run_candidate : Result Error (List ℕ) → Report → Report
  run_candidate (err e) r = refuse_candidate (failed "statement_candidate_shape") r
  run_candidate (ok candidate) r =
      let derived : Report = record r {
        candidate_derivation = passed "exact_statement_candidate_derived_not_outer_validation";
        candidate_entry = some candidate;
      } in
      if not (bounded_context r.trust_context r.policy.limits)
      then refuse_policy (failed "trust_context_limit") derived
      else run_receipt (from_cose_sign1 lib.receipts.cbor r.envelope.encoded_receipt) derived

  -- The statement's scan.
  abbrev pub preflight : List ℕ → VerificationLimits → Scan (Unit {0})
  preflight statement l =
      scan statement (statement_limits l) 0 false 0 Role.any "statement_trailing_data"

  unfoldable pub run : Report → Report
  run r =
      if not (inspected r.envelope)
      then r
      else if not (limits_valid r.policy.limits)
      then refuse_policy (failed "invalid_phase2_limits") r
      else if ltb r.policy.limits.max_statement_bytes (length r.statement_bytes)
      then refuse_candidate (failed "statement_byte_limit") r
      else if not (is_done (preflight r.statement_bytes r.policy.limits))
      then refuse_candidate (failed "statement_cbor_preflight") r
      else run_candidate (derive_candidate_entry lib.receipts.cbor r.statement_bytes) r

  -- The report before `run`.
  unfoldable pub initial_report :
      List ℕ → List ℕ → TsTrustContext → ReceiptVerificationPolicy → Report
  initial_report receipt_bytes statement_bytes trust_context policy = record {
    statement_bytes = statement_bytes;
    envelope = inspect_scitt_receipt lib.receipts.cbor lib.uri policy.envelope receipt_bytes;
    trust_context = trust_context;
    policy = policy;
    policy_id = "pask71-offline-service-association/1";
    candidate_entry = none;
    candidate_derivation = skipped;
    selected_policy = passed "phase2_policy_selected";
    candidate_keys = [];
    key_configuration = [];
    proofs = [];
    signature_attempts = 0;
    ts_signature = skipped;
    inclusion = skipped;
    ts_key_association = unestablished "verifying_key_not_established";
    ts_identity_trust = unestablished "trust_not_established";
    subject_policy = unestablished "phase3_subject_semantics_not_implemented";
    issuer_signature =
        finding Status.not_evaluated "outside_phase2"
          "Statement issuer verification is not implemented by this API.";
    application_policy = unestablished "phase3_application_not_implemented";
    hardware_appraisal =
        finding Status.not_evaluated "outside_phase2" "No hardware evidence is evaluated.";
    acceptable_for_registration = unestablished "registration_prerequisites_not_established";
  }

  unfoldable pub verify_scitt_receipt :
      List ℕ → List ℕ → TsTrustContext → ReceiptVerificationPolicy → Report
  verify_scitt_receipt receipt_bytes statement_bytes trust_context policy =
      run (initial_report receipt_bytes statement_bytes trust_context policy)
