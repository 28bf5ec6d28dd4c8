-- ===== src/Wire/Verification/Samples.antt =====
-- A receipt in its bytes and as a value, and a context that trusts its key.
use pask_workspace.Prelude.{ℕ, ℤ, false, List, [], ◌∷◌, ◌++◌, some, replicate}
use pask_workspace.Wire.Cbor.{Value, Values, Entries}
use pask_workspace.Wire.Verification.{
  TrustInputOrigin, BindingProvenance, TsPublicKey, RotationPolicy, TsTrustContext,
}

abbrev pub sample_text : ℕ → Value
sample_text c = Value.text (c ∷ [])

abbrev pub entry_of : ℕ → Value → Entries → Entries
entry_of label value rest = Entries.entry (Value.integer (ℤ.pos label)) value rest

-- {1: -8, 395: 1, 15: {1: "a", 2: "b"}, 4: h'00'}
abbrev pub protected_map : Value
protected_map = Value.map (
    entry_of 1 (Value.integer (ℤ.negsuc 7)) (
      entry_of 395 (Value.integer (ℤ.pos 1)) (
        entry_of 15
          (Value.map (entry_of 1 (sample_text 97) (entry_of 2 (sample_text 98) Entries.end)))
          (entry_of 4 (Value.bytes (0 ∷ [])) Entries.end))))

abbrev pub protected_bytes : List ℕ
protected_bytes =
    164 ∷ 1 ∷ 39 ∷ 25 ∷ 1 ∷ 139 ∷ 1 ∷ 15 ∷ 162 ∷ 1 ∷ 97 ∷ 97 ∷ 2 ∷ 97 ∷ 98 ∷ 4 ∷ 65 ∷ 0 ∷ []

-- [2, 0, [32 zeros]]
abbrev pub proof_value : Value
proof_value = Value.array (
    Values.cons (Value.integer (ℤ.pos 2)) (
      Values.cons (Value.integer (ℤ.pos 0)) (
        Values.cons (Value.array (Values.cons (Value.bytes (replicate 32 0)) Values.nil))
          Values.nil)))

abbrev pub proof_bytes : List ℕ
proof_bytes = 131 ∷ 2 ∷ 0 ∷ 129 ∷ 88 ∷ 32 ∷ replicate 32 0

-- 18([protected, {396: {-1: [proof]}}, null, h''])
abbrev pub receipt_value : Value
receipt_value = Value.tag 18 (
    Value.array (
      Values.cons (Value.bytes protected_bytes) (
        Values.cons
          (Value.map (
            entry_of 396
              (Value.map (
                Entries.entry (Value.integer (ℤ.negsuc 0))
                  (Value.array (Values.cons (Value.bytes proof_bytes) Values.nil)) Entries.end))
              Entries.end))
          (Values.cons Value.null (Values.cons (Value.bytes []) Values.nil)))))

abbrev pub receipt_bytes : List ℕ
receipt_bytes =
    (210 ∷ 132 ∷ 82 ∷ protected_bytes)
    ++ ((161 ∷ 25 ∷ 1 ∷ 140 ∷ 161 ∷ 32 ∷ 129 ∷ 88 ∷ 38 ∷ proof_bytes) ++ (246 ∷ 64 ∷ []))

abbrev pub sample_context : TsTrustContext
sample_context = record {
  accepted_ts_identities = (97 ∷ []) ∷ [];
  associations =
      record {
        service_identity = 97 ∷ [];
        public_key = TsPublicKey.ed25519 (replicate 32 1);
        algorithm = ℤ.negsuc 7;
        provenance = BindingProvenance.caller_authenticated (97 ∷ []) (98 ∷ []);
        kid_hint = some (0 ∷ []);
        valid_from = some (ℤ.pos 0);
        valid_until = some (ℤ.pos 10);
        explicitly_distrusted = false;
      }
      ∷ [];
  evaluation_time = some (ℤ.pos 5);
  rotation_policy = some RotationPolicy.valid_at_evaluation_time_v1;
  provisioned_by = some (97 ∷ []);
  origin = TrustInputOrigin.caller_authenticated_external;
}
