-- ===== src/Wire/Verification/Keys.antt =====
-- crates/pask-wire/src/receipt_verification.rs: the loop of `run` over the associations, which
-- collects the candidate keys.
use pask_workspace.Prelude.{
  ℕ, ℤ, suc, ◌==◌, not, if◌then◌else◌, Bool, true, false, List, [], ◌∷◌, ◌++◌, Option, none, some,
  length, bytes_eq, int_eq,
}
use pask_workspace.Wire.Cbor.{Value}
use pask_workspace.Wire.Cbor.Equal.{value_eq}
use pask_workspace.Wire.Inspection.{Status, Finding}
use pask_workspace.Wire.Verification.{
  TsPublicKey, TsKeyAssociation, VerifyingKeyEvidence, finding, failed, passed,
}

-- The first key identifier of the effective headers that is a byte string.
abbrev pub kid_of : Bool → Value → Option (List ℕ) → Option (List ℕ)
kid_of true (Value.bytes b) later = some b
kid_of _ _ later = later

unfoldable pub find_kid : List (Value × Value) → Option (List ℕ)
find_kid [] = none
find_kid ((k, v) ∷ headers) = kid_of (value_eq k (Value.integer (ℤ.pos 4))) v (find_kid headers)

-- `kid.is_some() && kid == a.kid_hint`
abbrev pub hinted : Option (List ℕ) → Option (List ℕ) → Bool
hinted (some kid) (some hint) = bytes_eq kid hint
hinted _ _ = false

-- The indices of one association, pushed.
abbrev pub noted : ℕ → Bool → VerifyingKeyEvidence → VerifyingKeyEvidence
noted i hint k = record k {
  association_indices = k.association_indices ++ (i ∷ []);
  kid_hint_match_indices =
      if hint then k.kid_hint_match_indices ++ (i ∷ []) else k.kid_hint_match_indices;
}

abbrev pub or_later :
    VerifyingKeyEvidence → Option (List VerifyingKeyEvidence) → Option (List VerifyingKeyEvidence)
or_later k none = none
or_later k (some keys) = some (k ∷ keys)

-- The evidence of a key that is there.
unfoldable pub note_present :
    List ℕ → ℕ → Bool → List VerifyingKeyEvidence → Option (List VerifyingKeyEvidence)
note_present key i hint [] = none
note_present key i hint (k ∷ keys) =
    let later = or_later k (note_present key i hint keys) in
    if bytes_eq k.public_key key then some (noted i hint k ∷ keys) else later

-- The candidate keys, and the findings pushed so far.
pub record KeyTable : Type 0 where
  pub candidate_keys : List VerifyingKeyEvidence
  pub key_configuration : List Finding

pub data Configured : Type 0 where
  all_keys : KeyTable → Configured
  too_many_keys : KeyTable → Configured

abbrev pub pushed : Finding → KeyTable → KeyTable
pushed f t = record t { key_configuration = t.key_configuration ++ (f ∷ []) }

module _ (sha256 : List ℕ → List ℕ) (max_candidate_keys : ℕ) where
  -- A new key, if there is room for it.
  abbrev pub add_new : List ℕ → ℕ → Bool → KeyTable → (KeyTable → Configured) → Configured
  add_new key i hint t next =
      if length t.candidate_keys == max_candidate_keys
      then Configured.too_many_keys t
      else next (record t {
        candidate_keys =
            t.candidate_keys
            ++ (noted i hint (record {
              public_key = key;
              sha256 = sha256 key;
              association_indices = [];
              kid_hint_match_indices = [];
            })
                ∷ []);
      })

  abbrev pub note_key :
      Option (List VerifyingKeyEvidence)
      → List ℕ
      → ℕ
      → Bool
      → KeyTable
      → (KeyTable → Configured)
      → Configured
  note_key (some keys) key i hint t next = next (record t { candidate_keys = keys })
  note_key none key i hint t next = add_new key i hint t next

  -- One round; `next` is the rest of the loop.
  unfoldable pub configure :
      Option (List ℕ)
      → ℕ
      → TsKeyAssociation
      → TsPublicKey
      → KeyTable
      → (KeyTable → Configured)
      → Configured
  configure kid i a (TsPublicKey.unsupported_key key_type bytes) t next = next (
      pushed
        (finding Status.unsupported "key_type_not_supported"
          "This row is not used for signature attempts; no key-type coercion.")
        t)
  configure kid i a (TsPublicKey.ed25519 key) t next =
      if not (int_eq a.algorithm (ℤ.negsuc 7))
      then next (pushed (failed "configured_algorithm_key_mismatch") t)
      else note_key (note_present key i (hinted kid a.kid_hint) t.candidate_keys) key i
          (hinted kid a.kid_hint) (pushed (passed "configured_ed25519_algorithm_key_agreement") t)
          next

  unfoldable pub configure_keys :
      Option (List ℕ) → ℕ → List TsKeyAssociation → KeyTable → Configured
  configure_keys kid i [] t = Configured.all_keys t
  configure_keys kid i (a ∷ rest) t =
      configure kid i a a.public_key t (configure_keys kid (suc i) rest)
