-- ===== src/Wire/Verification/Candidates.antt =====
-- The candidate keys that the configuration gives.
use pask_workspace.Prelude.{
  by_test, ℕ, ℤ, suc, ◌+◌, ◌≤◌, ◌≡◌, refl, arith, ◌==◌, ◌&&◌, ◌||◌, not, Bool, true, false, List,
  [], ◌∷◌, ◌++◌, Option, none, some, length, length-append, bytes_eq, bytes_eq→eq, bytes_eq_refl,
  int_eq, ap, subst, sym, Bool-cases, inl, inr,
}
use pask_workspace.Wire.Inspection.{Finding}
use pask_workspace.Wire.Verification.{
  TsPublicKey, TsKeyAssociation, VerifyingKeyEvidence, failed, passed,
}
use pask_workspace.Wire.Verification.Keys.{
  KeyTable, Configured, or_later, noted, hinted, pushed, note_present, add_new, note_key, configure,
  configure_keys,
}

abbrev pub public_keys : List VerifyingKeyEvidence → List (List ℕ)
public_keys [] = []
public_keys (k ∷ ks) = k.public_key ∷ public_keys ks

abbrev pub knows : List ℕ → List (List ℕ) → Bool
knows key [] = false
knows key (k ∷ ks) = bytes_eq k key || knows key ks

abbrev pub distinct : List (List ℕ) → Bool
distinct [] = true
distinct (k ∷ ks) = not (knows k ks) && distinct ks

bytes_eq-false : (x y : List ℕ) → bytes_eq x y ≡ false → bytes_eq y x ≡ false
bytes_eq-false x y h = elim (Bool-cases (bytes_eq y x)) [
  | inl t ↦
      let same : x ≡ y = sym (bytes_eq→eq y x t) in
      absurd (ground (arith, subst (λ z. bytes_eq x z ≡ true) same (bytes_eq_refl x)))
  | inr f ↦ f
]

knows-append :
    (key new : List ℕ) (ks : List (List ℕ))
    → knows key ks ≡ false
    → bytes_eq new key ≡ false
    → knows key (ks ++ (new ∷ [])) ≡ false
knows-append key new [] h g = ground arith
knows-append key new (k ∷ ks) h g = ground (arith, knows-append key new ks)

distinct-append :
    (new : List ℕ) (ks : List (List ℕ))
    → knows new ks ≡ false
    → distinct ks ≡ true
    → distinct (ks ++ (new ∷ [])) ≡ true
distinct-append new [] h g = refl
distinct-append new (k ∷ ks) h g =
    let apart = bytes_eq-false k new (ground arith) in
    let rest = distinct-append new ks (ground arith) (ground arith) in
    let unknown = knows-append k new ks (ground arith) apart in ground arith

public_keys-append :
    (ks : List VerifyingKeyEvidence) (k : VerifyingKeyEvidence)
    → public_keys (ks ++ (k ∷ [])) ≡ public_keys ks ++ (k.public_key ∷ [])
public_keys-append [] k = refl
public_keys-append (j ∷ ks) k = ap (λ rest. j.public_key ∷ rest) (public_keys-append ks k)

-- What noting an association at a key that is there comes to.
abbrev Noted : List ℕ → List VerifyingKeyEvidence → Option (List VerifyingKeyEvidence) → Type 0
Noted key keys none = knows key (public_keys keys) ≡ false
Noted key keys (some after) = public_keys after ≡ public_keys keys

or_later-Noted :
    (key : List ℕ) (k : VerifyingKeyEvidence) (keys : List VerifyingKeyEvidence)
    (o : Option (List VerifyingKeyEvidence))
    → bytes_eq k.public_key key ≡ false
    → Noted key keys o
    → Noted key (k ∷ keys) (or_later k o)
or_later-Noted key k keys none f h = ground arith
or_later-Noted key k keys (some after) f h = ap (λ rest. k.public_key ∷ rest) h

note_present-Noted :
    (key : List ℕ) (i : ℕ) (hint : Bool) (keys : List VerifyingKeyEvidence)
    → Noted key keys (note_present key i hint keys)
unfolding note_present
note_present-Noted key i hint [] = refl
note_present-Noted key i hint (k ∷ keys) =
    let later = note_present-Noted key i hint keys in
    by_test (Noted key (k ∷ keys)) (bytes_eq k.public_key key) (some (noted i hint k ∷ keys))
      (or_later k (note_present key i hint keys)) (λ e. refl)
      (λ e. or_later-Noted key k keys (note_present key i hint keys) e later)

module _ (sha256 : List ℕ → List ℕ) (max_candidate_keys : ℕ) where
  -- Distinct keys, within the limit.
  pub record IsTable (t : KeyTable) : Type 0 where
    pub room : length (public_keys t.candidate_keys) ≤ max_candidate_keys
    pub apart : distinct (public_keys t.candidate_keys) ≡ true

  -- A configuration that ends has a finding for each association; one that stops is full.
  abbrev pub IsConfigured : ℕ → Configured → Type 0
  IsConfigured n (Configured.all_keys t) = IsTable t × (length t.key_configuration ≡ n)
  IsConfigured n (Configured.too_many_keys t) =
      IsTable t × (length (public_keys t.candidate_keys) ≡ max_candidate_keys)

  length-public_keys : (ks : List VerifyingKeyEvidence) → length (public_keys ks) ≡ length ks
  length-public_keys [] = refl
  length-public_keys (k ∷ ks) = ap suc (length-public_keys ks)

  module _ (n : ℕ) (next : KeyTable → Configured) where
    -- What the rest of the loop gives after a table with `m` findings.
    abbrev Next : ℕ → Type 0
    Next m = (u : KeyTable) → IsTable u → length u.key_configuration ≡ m → IsConfigured n (next u)

    add_new-IsConfigured :
        (key : List ℕ) (i : ℕ) (hint : Bool) (t : KeyTable)
        → IsTable t
        → knows key (public_keys t.candidate_keys) ≡ false
        → Next (length t.key_configuration)
        → IsConfigured n (add_new sha256 max_candidate_keys key i hint t next)
    add_new-IsConfigured key i hint t h unknown k =
        let new : VerifyingKeyEvidence = noted i hint (record {
          public_key = key;
          sha256 = sha256 key;
          association_indices = [];
          kid_hint_match_indices = [];
        }) in
        let grown : KeyTable = record t { candidate_keys = t.candidate_keys ++ (new ∷ []) } in
        let keys = public_keys t.candidate_keys in
        let same = public_keys-append t.candidate_keys new in
        let count = length-public_keys t.candidate_keys in
        let room = h.room in
        let longer = length-append keys (key ∷ []) in
        by_test (IsConfigured n) (length t.candidate_keys == max_candidate_keys)
          (Configured.too_many_keys t) (next grown) (λ e. (h, ground arith))
          (λ e.
            k grown
              (record {
                room = subst (λ ks. length ks ≤ max_candidate_keys) (sym same) (ground arith);
                apart =
                    subst (λ ks. distinct ks ≡ true) (sym same)
                      (distinct-append key keys unknown h.apart);
              })
              refl)

    note_key-IsConfigured :
        (o : Option (List VerifyingKeyEvidence)) (key : List ℕ) (i : ℕ) (hint : Bool) (t : KeyTable)
        → IsTable t
        → Noted key t.candidate_keys o
        → Next (length t.key_configuration)
        → IsConfigured n (note_key sha256 max_candidate_keys o key i hint t next)
    note_key-IsConfigured none key i hint t h noted k = add_new-IsConfigured key i hint t h noted k
    note_key-IsConfigured (some keys) key i hint t h same k =
        k (record t { candidate_keys = keys })
          (record {
            room = subst (λ ks. length ks ≤ max_candidate_keys) (sym same) h.room;
            apart = subst (λ ks. distinct ks ≡ true) (sym same) h.apart;
          })
          refl

    pushed-count :
        (f : Finding) (t : KeyTable)
        → length (pushed f t).key_configuration ≡ suc (length t.key_configuration)
    pushed-count f t = ground (arith, length-append t.key_configuration (f ∷ []))

    pushed-Next :
        (f : Finding) (t : KeyTable)
        → Next (suc (length t.key_configuration))
        → Next (length (pushed f t).key_configuration)
    pushed-Next f t k = subst (λ m. Next m) (sym (pushed-count f t)) k

    configure-IsConfigured :
        (kid : Option (List ℕ)) (i : ℕ) (a : TsKeyAssociation) (p : TsPublicKey) (t : KeyTable)
        → IsTable t
        → Next (suc (length t.key_configuration))
        → IsConfigured n (configure sha256 max_candidate_keys kid i a p t next)
    unfolding configure
    configure-IsConfigured kid i a (TsPublicKey.unsupported_key key_type bytes) t h k =
        k _ (record { room = h.room; apart = h.apart }) (pushed-count _ t)
    configure-IsConfigured kid i a (TsPublicKey.ed25519 key) t h k =
        let good = pushed (passed "configured_ed25519_algorithm_key_agreement") t in
        let bad = pushed (failed "configured_algorithm_key_mismatch") t in
        let hint = hinted kid a.kid_hint in
        let o = note_present key i hint t.candidate_keys in
        by_test (IsConfigured n) (not (int_eq a.algorithm (ℤ.negsuc 7))) (next bad)
          (note_key sha256 max_candidate_keys o key i hint good next)
          (λ e. k bad (record { room = h.room; apart = h.apart }) (pushed-count _ t))
          (λ e.
            note_key-IsConfigured o key i hint good (record { room = h.room; apart = h.apart })
              (note_present-Noted key i hint t.candidate_keys) (pushed-Next _ t k))

  configure_keys-from :
      (kid : Option (List ℕ)) (i : ℕ) (rest : List TsKeyAssociation) (t : KeyTable)
      → IsTable t
      → IsConfigured
          (length t.key_configuration + length rest)
          (configure_keys sha256 max_candidate_keys kid i rest t)
  unfolding configure_keys
  configure_keys-from kid i [] t h = (h, omega arith)
  configure_keys-from kid i (a ∷ rest) t h =
      configure-IsConfigured (length t.key_configuration + suc (length rest))
        (configure_keys sha256 max_candidate_keys kid (suc i) rest) kid i a a.public_key t h
        (λ u g e.
          subst (λ m. IsConfigured m (configure_keys sha256 max_candidate_keys kid (suc i) rest u))
            (omega arith) (configure_keys-from kid (suc i) rest u g))

  -- The candidate keys are pairwise distinct and within their limit; a configuration that ends has
  -- one finding for each association, and one that stops has as many keys as the limit.
  pub configure_keys-IsConfigured :
      (kid : Option (List ℕ)) (associations : List TsKeyAssociation)
      → IsConfigured (length associations) (
          configure_keys sha256 max_candidate_keys kid 0 associations
            (record { candidate_keys = []; key_configuration = [] }))
  configure_keys-IsConfigured kid associations =
      let start : KeyTable = record { candidate_keys = []; key_configuration = [] } in
      subst
        (λ m. IsConfigured m (configure_keys sha256 max_candidate_keys kid 0 associations start))
        (omega arith)
        (configure_keys-from kid 0 associations start (record { room = omega arith; apart = refl }))
