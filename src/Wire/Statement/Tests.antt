-- ===== src/Wire/Statement/Tests.antt =====
-- A statement with one receipt in its unprotected header.
use pask_workspace.Prelude.{
  ◌≤◌, err, ok, replicate, All, is_empty, ℕ, ℤ, ◌≡◌, refl, ◌==◌, if◌then◌else◌, true, false, List,
  [], ◌∷◌, some, none,
}
use pask_workspace.Wire.Cbor.{Value, Values, Entries, CborLibrary}
use pask_workspace.Wire.Inspection.{default_limits}
use pask_workspace.Wire.Verification.{default_verification_limits}
use pask_workspace.Wire.Statement.{
  TransparentStatementPolicy, OuterStatementReport, ReceiptContainerState, statement_passed,
  statement_skipped,
}
use pask_workspace.Wire.Inspection.Claims.{Claims}
use pask_workspace.Wire.Verification.{
  TrustInputOrigin, BindingProvenance, TsPublicKey, VerificationLibraries,
}
use pask_workspace.Wire.Verification.Proofs.{is_passed}
use pask_workspace.Wire.Statement.Issuer.{
  IssuerKeyInput, IssuerFindings, statement_unset, issuer_association, issuer_trust,
  after_signature, check_signed, check_issuer, authenticated_provenance, is_local,
}
use pask_workspace.Wire.Statement.Trusted.{outcome, IsSignedBy, check_issuer-trusted}
use pask_workspace.Wire.Statement.Subject.{
  SubjectMapping, SubjectPolicy, rows_from, by_rows, by_mapping, by_policy, subject_finding,
}
use pask_workspace.Wire.Statement.Mapped.{Targets, subject_finding-mapped}
use pask_workspace.Wire.Statement.Verify.{
  StatementInputs, StatementLibraries, verify_transparent_statement,
}
use pask_workspace.Wire.Statement.Work.{work, verify_transparent_statement-attempts}
use pask_workspace.Wire.Statement.Outer.{inspect_transparent_statement}
use pask_workspace.Wire.Statement.Container.{IsOuter, inspect_transparent_statement-IsOuter}

-- [{1: -8} in its bytes, {394: [h'00']}, h'05', h'06']
abbrev statement : List ℕ
statement = 132 ∷ 67 ∷ 161 ∷ 1 ∷ 39 ∷ 161 ∷ 25 ∷ 1 ∷ 138 ∷ 129 ∷ 65 ∷ 0 ∷ 65 ∷ 5 ∷ 65 ∷ 6 ∷ []

abbrev statement_value : Value
statement_value = Value.array (
    Values.cons (Value.bytes (161 ∷ 1 ∷ 39 ∷ [])) (
      Values.cons
        (Value.map (
          Entries.entry (Value.integer (ℤ.pos 394))
            (Value.array (Values.cons (Value.bytes (0 ∷ [])) Values.nil)) Entries.end))
        (Values.cons (Value.bytes (5 ∷ [])) (Values.cons (Value.bytes (6 ∷ [])) Values.nil))))

abbrev header_value : Value
header_value =
    Value.map (Entries.entry (Value.integer (ℤ.pos 1)) (Value.integer (ℤ.negsuc 7)) Entries.end)

-- A reader that tells the statement and its header apart by their first byte.
abbrev statement_reader : CborLibrary
statement_reader = record {
  from_reader = λ input. elim input [
    | [] ↦ none
    | b ∷ bs ↦ if b == 132 then some (statement_value, []) else some (header_value, [])
  ];
  into_writer = λ value. some [];
}

abbrev statement_policy : TransparentStatementPolicy
statement_policy = record {
  strict_cross_map = false;
  max_statement_bytes = 1048576;
  max_receipts = 8;
  receipt = record {
    envelope = record { strict_cross_map = false; limits = default_limits };
    limits = default_verification_limits;
  };
}

inspect_transparent_statement-IsOuter_example :
    IsOuter statement_policy
      (inspect_transparent_statement statement_reader (λ t. true) statement statement_policy)
inspect_transparent_statement-IsOuter_example =
    inspect_transparent_statement-IsOuter statement_reader (λ t. true) statement_policy statement

abbrev statement_libraries : VerificationLibraries
statement_libraries = record {
  receipts = record {
    cbor = statement_reader;
    sha256 = λ input. replicate 32 0;
    Key = List ℕ;
    Signature = List ℕ;
    from_slice = λ s. some s;
    verify = λ k m s. true;
  };
  uri = λ text. true;
  from_bytes = λ k. some k;
  verify_strict = λ k m s. true;
}

abbrev source : BindingProvenance
source = BindingProvenance.caller_authenticated (97 ∷ []) (98 ∷ [])

abbrev issuer_key : IssuerKeyInput
issuer_key = record {
  public_key = TsPublicKey.ed25519 (replicate 32 1);
  algorithm = ℤ.negsuc 7;
  issuer = 97 ∷ [];
  provenance = source;
  origin = TrustInputOrigin.caller_authenticated_external;
  evaluation_time = some (ℤ.pos 5);
  valid_from = some (ℤ.pos 0);
  valid_until = some (ℤ.pos 10);
  explicitly_distrusted = false;
}

abbrev statement_claims : Claims
statement_claims = record { issuer = 97 ∷ []; subject = 98 ∷ []; authenticated = false }

abbrev outer_report : OuterStatementReport
outer_report = record {
  encoded_statement = statement;
  policy = statement_policy;
  protected_bytes = some (161 ∷ 1 ∷ 39 ∷ []);
  payload_bytes = some (5 ∷ []);
  signature_bytes = some (6 ∷ []);
  effective_headers = [];
  claims = some statement_claims;
  algorithm = some (ℤ.negsuc 7);
  protected_content_type = none;
  structure = statement_passed "outer_structure_inspected";
  required_claims = statement_passed "text_claim_types_not_semantic_binding";
  support = statement_passed "ed25519_issuer_supported";
  selected_policy = statement_passed "bounded_outer_policy";
  container = ReceiptContainerState.no_receipts;
  receipts = [];
}

abbrev no_findings : IssuerFindings
no_findings = record {
  issuer_signature = statement_skipped;
  actual_issuer_key = none;
  issuer_key_association = statement_unset "issuer_key_absent";
  issuer_identity_trust = statement_unset "issuer_trust_absent";
}

issuer_trusted :
    outcome (check_issuer statement_libraries outer_report (some issuer_key) no_findings) ≡ true
unfolding check_issuer check_signed after_signature issuer_association issuer_trust
issuer_trusted = refl

check_issuer-trusted_example :
    (k : IssuerKeyInput) × (some issuer_key ≡ some k)
    × IsSignedBy statement_libraries outer_report k
check_issuer-trusted_example =
    check_issuer-trusted statement_libraries outer_report (some issuer_key) no_findings refl
      issuer_trusted

-- Two rows for one subject, with the same target.
abbrev mapping : SubjectMapping
mapping = record {
  mapped_service = 99 ∷ [];
  receipt_subject = 100 ∷ [];
  statement_subject = 98 ∷ [];
  site_id = 101 ∷ [];
}

abbrev receipt_claims : Claims
receipt_claims = record { issuer = 99 ∷ []; subject = 100 ∷ []; authenticated = false }

subject_bound :
    is_passed
      (subject_finding
        (SubjectPolicy.authenticated_mapping_v1
          (mapping ∷ mapping ∷ [])
          source
          TrustInputOrigin.caller_authenticated_external)
        (some statement_claims)
        (some receipt_claims)
        (some (101 ∷ []))).status
    ≡ true
unfolding subject_finding by_policy by_mapping by_rows rows_from
subject_bound = refl

subject_finding-mapped_example :
    (authenticated_provenance source ≡ true)
    × (is_local TrustInputOrigin.caller_authenticated_external ≡ false)
    × (is_empty (rows_from (99 ∷ []) (100 ∷ []) (mapping ∷ mapping ∷ [])) ≡ false)
    × All (Targets (98 ∷ []) (101 ∷ [])) (rows_from (99 ∷ []) (100 ∷ []) (mapping ∷ mapping ∷ []))
subject_finding-mapped_example =
    subject_finding-mapped (mapping ∷ mapping ∷ []) source
      TrustInputOrigin.caller_authenticated_external statement_claims receipt_claims (101 ∷ [])
      subject_bound

abbrev all_libraries : StatementLibraries
all_libraries = record {
  verification = statement_libraries;
  json_text = record {
    quote = λ t. ok t;
    decimal = λ n. [];
    is_finite = λ n. true;
    format_finite = λ n. [];
    utf16 = λ t. t;
  };
  from_slice = λ input. err "no JSON";
}

abbrev statement_inputs : StatementInputs
statement_inputs = record {
  issuer = some issuer_key;
  services = record {
    accepted_ts_identities = [];
    associations = [];
    evaluation_time = none;
    rotation_policy = none;
    provisioned_by = none;
    origin = TrustInputOrigin.local_simulation;
  };
  expected_digest = none;
  subject = SubjectPolicy.no_subject;
  application = none;
}

verify_transparent_statement-attempts_example :
    work (verify_transparent_statement all_libraries statement statement_inputs statement_policy)
    ≤ 2048
verify_transparent_statement-attempts_example =
    verify_transparent_statement-attempts all_libraries statement statement_inputs statement_policy
