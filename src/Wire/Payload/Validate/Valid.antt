-- ===== src/Wire/Payload/Validate/Valid.antt =====
-- What a payload that `validate` accepts satisfies.
use pask_workspace.Prelude.{
  ℕ, ◌≤◌, ◌<◌, ◌≡◌, ◌≢◌, ap, false, refl, ◌⊎◌, inl, inr, arith, true, ◌||◌, Text, bytes_eq,
  bytes_eq→eq, ok, List, >>=-eq-ok, guard, ◌>>◌, ltb,
}
use pask_workspace.Wire.Error.{Error}
use pask_workspace.Wire.Digest.{validate_sha256}
use pask_workspace.Wire.Payload.Fields.{
  BindingMode, Payload, is_supported_spec, spec_version_06, spec_version_07,
}
use pask_workspace.Wire.Payload.Strings.{is_unrecognized}
use pask_workspace.Wire.Payload.Validate.Rules.{
  IsDigest, IsLinked, IsInstant, IsOrdered, HasStrings, HasDigests, validate_sha256-IsDigest,
  validate_link-IsLinked, required-HasStrings, validate_components-All,
  validate_content_digest-IsContent, validate_utc-IsInstant, validate_optional_window-IsOrdered,
}
use pask_workspace.Wire.Payload.Validate.{
  validate_content_digest, Libraries, json_error, all_nonempty, required_strings, validate_link,
  validate_utc, validate_containment, validate_chain, expected_chain_hash, validate_optional_window,
  validate_window, validate_validity, validate_strings, validate_digests, validate,
  check_spec_version, from_json, from_json_for_production, update_chain_hash,
}

module _ (lib : Libraries) where
  pub record IsValid (p : Payload) : Type 0 where
    pub supported : is_supported_spec p.spec ≡ true
    pub bound : (raw : Text) → p.attestation.binding_mode ≢ BindingMode.unrecognized raw
    pub strings : HasStrings p
    pub envelope_window :
        IsOrdered lib p.site.envelope.temporal.starts p.site.envelope.temporal.ends
    pub window_start : ℕ
    pub window_end : ℕ
    pub starts : IsInstant lib p.engagement.window.start window_start
    pub ends : IsInstant lib p.engagement.window.end window_end
    pub window : window_start ≤ window_end
    pub posted_at : ℕ
    pub posted_at_read : IsInstant lib p.adapter.posted_at posted_at
    pub ts : ℕ
    pub ts_read : IsInstant lib p.ts ts
    pub not_before : ℕ
    pub not_after : ℕ
    pub not_before_read : IsInstant lib p.attestation.validity.not_before not_before
    pub not_after_read : IsInstant lib p.attestation.validity.not_after not_after
    pub validity : not_before < not_after
    pub contained :
        (p.spec ≡ spec_version_06) ⊎ (p.spec ≡ spec_version_07)
        → (not_before ≤ ts) × (ts ≤ not_after)
    pub digests : HasDigests p
    pub linked : IsLinked p.chain.seq p.chain.prev_hash
    pub hashed : expected_chain_hash lib p ≡ ok p.chain.hash

  validate_strings-ok :
      (p : Payload)
      → validate_strings lib p ≡ ok tt
      → (is_supported_spec p.spec ≡ true)
        × (is_unrecognized p.attestation.binding_mode ≡ false)
        × (all_nonempty (required_strings p) ≡ true)
  unfolding validate_strings
  validate_strings-ok p e = ground arith

  recognized :
      (mode : BindingMode) (raw : Text)
      → is_unrecognized mode ≡ false
      → mode ≢ BindingMode.unrecognized raw
  unfolding is_unrecognized
  recognized mode raw h e = cc (ap is_unrecognized e)

  containment_applies :
      (spec : Text)
      → (spec ≡ spec_version_06) ⊎ (spec ≡ spec_version_07)
      → (bytes_eq spec spec_version_06 || bytes_eq spec spec_version_07) ≡ true
  containment_applies spec (inl e) = rw e refl
  containment_applies spec (inr e) = rw e refl

  validate_window-ok :
      (p : Payload)
      → validate_window lib p ≡ ok tt
      → (s : ℕ) × (e : ℕ) × (validate_utc lib p.engagement.window.start ≡ ok s)
        × (validate_utc lib p.engagement.window.end ≡ ok e)
        × (s ≤ e)
  unfolding validate_window
  validate_window-ok p h =
      let (s, hs, h1) = >>=-eq-ok (validate_utc lib p.engagement.window.start) _ h in
      let (e, he, h2) = >>=-eq-ok (validate_utc lib p.engagement.window.end) _ h1 in
      (s, e, hs, he, ground arith)

  validate_chain-ok :
      (p : Payload)
      → validate_chain lib p ≡ ok tt
      → IsLinked p.chain.seq p.chain.prev_hash
        × IsDigest p.chain.hash
        × (expected_chain_hash lib p ≡ ok p.chain.hash)
  unfolding validate_chain
  validate_chain-ok p h =
      let (_, hl, h1) = >>=-eq-ok (validate_link p.chain.seq p.chain.prev_hash) _ h in
      let (_, hs, h2) = >>=-eq-ok (validate_sha256 p.chain.hash) _ h1 in
      let (x, hx, h3) = >>=-eq-ok (expected_chain_hash lib p) _ h2 in
      (
        validate_link-IsLinked p.chain.seq p.chain.prev_hash hl,
        validate_sha256-IsDigest p.chain.hash hs,
        ground (arith, bytes_eq→eq p.chain.hash x),
      )

  validate_digests-ok :
      (p : Payload)
      → validate_digests lib p ≡ ok tt
      → IsDigest p.chain.hash
      → IsDigest p.adapter.ack_digest
      → HasDigests p
  unfolding validate_digests
  validate_digests-ok p h chain ack =
      let (_, envelope, h1) = >>=-eq-ok (validate_sha256 p.site.envelope.digest) _ h in
      let (_, evidence, h2) = >>=-eq-ok (validate_sha256 p.engagement.evidence_digest) _ h1 in
      let (_, content, h3) =
        >>=-eq-ok
          (validate_content_digest (bytes_eq p.spec spec_version_07) p.engagement.content_digest) _
          h2 in
      let (_, boot, h4) = >>=-eq-ok (validate_sha256 p.attestation.measured_boot.chain) _ h3 in
      let (_, platform, h5) =
        >>=-eq-ok (validate_sha256 p.attestation.platform_evidence.digest) _ h4 in
      let (_, seal, components) =
        >>=-eq-ok (validate_sha256 p.attestation.sealed_evidence.digest) _ h5 in
      record {
        envelope = validate_sha256-IsDigest _ envelope;
        evidence = validate_sha256-IsDigest _ evidence;
        content = validate_content_digest-IsContent _ _ content;
        boot_chain = validate_sha256-IsDigest _ boot;
        platform = validate_sha256-IsDigest _ platform;
        sealed_evidence = validate_sha256-IsDigest _ seal;
        components = validate_components-All _ components;
        acknowledgement = ack;
        chain = chain;
      }

  validate_containment-ok :
      (p : Payload) (s e ts : ℕ)
      → validate_utc lib p.ts ≡ ok ts
      → validate_containment lib p s e ≡ ok tt
      → (bytes_eq p.spec spec_version_06 || bytes_eq p.spec spec_version_07) ≡ true
      → (s ≤ ts) × (ts ≤ e)
  unfolding validate_containment
  validate_containment-ok p s e ts ht h u = ground arith

  validate_validity-ok :
      (p : Payload) (ts : ℕ)
      → validate_utc lib p.ts ≡ ok ts
      → validate_validity lib p ≡ ok tt
      → (s : ℕ) × (e : ℕ) × (validate_utc lib p.attestation.validity.not_before ≡ ok s)
        × (validate_utc lib p.attestation.validity.not_after ≡ ok e)
        × (s < e)
        × ((bytes_eq p.spec spec_version_06 || bytes_eq p.spec spec_version_07) ≡ true
            → (s ≤ ts) × (ts ≤ e))
  unfolding validate_validity
  validate_validity-ok p ts ht h =
      let (s, hs, h1) = >>=-eq-ok (validate_utc lib p.attestation.validity.not_before) _ h in
      let (e, he, h2) = >>=-eq-ok (validate_utc lib p.attestation.validity.not_after) _ h1 in
      let (lt, h3) = guarded s e h2 in (s, e, hs, he, lt, validate_containment-ok p s e ts ht h3)
    where
      guarded :
          (s e : ℕ)
          → (guard (ltb s e) (
                Error.validation
                  "attestation validity notAfter must be strictly later than notBefore")
              >> validate_containment lib p s e)
            ≡ ok tt
          → (s < e) × (validate_containment lib p s e ≡ ok tt)
      guarded s e h = ground arith

  -- A payload that passes validation satisfies every clause of `IsValid`.
  pub validate-IsValid : (p : Payload) → validate lib p ≡ ok tt → IsValid p
  unfolding validate
  validate-IsValid p h =
      let (_, h_strings, h1) = >>=-eq-ok (validate_strings lib p) _ h in
      let (ts, h_ts, h2) = >>=-eq-ok (validate_utc lib p.ts) _ h1 in
      let (_, h_envelope, h3) =
        >>=-eq-ok
          (validate_optional_window lib p.site.envelope.temporal.starts
            p.site.envelope.temporal.ends)
          _ h2 in
      let (_, h_window, h4) = >>=-eq-ok (validate_window lib p) _ h3 in
      let (posted, h_posted, h5) = >>=-eq-ok (validate_utc lib p.adapter.posted_at) _ h4 in
      let (_, h_digests, h6) = >>=-eq-ok (validate_digests lib p) _ h5 in
      let (_, h_validity, h7) = >>=-eq-ok (validate_validity lib p) _ h6 in
      let (_, h_ack, h_chain) = >>=-eq-ok (validate_sha256 p.adapter.ack_digest) _ h7 in
      let (supported, bound, nonempty) = validate_strings-ok p h_strings in
      let (ws, we, hs, he, w) = validate_window-ok p h_window in
      let (vs, ve, hvs, hve, v, c) = validate_validity-ok p ts h_ts h_validity in
      let (linked, chain, hashed) = validate_chain-ok p h_chain in
      record {
        supported = supported;
        bound = λ raw. recognized p.attestation.binding_mode raw bound;
        strings = required-HasStrings p nonempty;
        envelope_window = validate_optional_window-IsOrdered lib _ _ h_envelope;
        window_start = ws;
        window_end = we;
        starts = validate_utc-IsInstant lib _ ws hs;
        ends = validate_utc-IsInstant lib _ we he;
        window = w;
        ts = ts;
        ts_read = validate_utc-IsInstant lib p.ts ts h_ts;
        posted_at = posted;
        posted_at_read = validate_utc-IsInstant lib _ posted h_posted;
        not_before = vs;
        not_after = ve;
        not_before_read = validate_utc-IsInstant lib _ vs hvs;
        not_after_read = validate_utc-IsInstant lib _ ve hve;
        validity = v;
        contained = λ which. c (containment_applies p.spec which);
        digests = validate_digests-ok p h_digests chain (validate_sha256-IsDigest _ h_ack);
        linked = linked;
        hashed = hashed;
      }

  from_json-validate :
      (bytes : List ℕ) (p : Payload) → from_json lib bytes ≡ ok p → validate lib p ≡ ok tt
  unfolding from_json
  from_json-validate bytes p h =
      let (_, _, h1) = >>=-eq-ok (check_spec_version lib bytes) _ h in
      let (q, _, h2) = >>=-eq-ok (json_error (lib.parse_payload bytes)) _ h1 in
      let (_, hv, h3) = >>=-eq-ok (validate lib q) _ h2 in let e : q ≡ p = cc in rw (← e) hv

  from_json_for_production-validate :
      (bytes : List ℕ) (p : Payload)
      → from_json_for_production lib bytes ≡ ok p
      → validate lib p ≡ ok tt
  unfolding from_json_for_production
  from_json_for_production-validate bytes p h =
      let (_, _, h1) = >>=-eq-ok (check_spec_version lib bytes) _ h in
      let (q, _, h2) = >>=-eq-ok (json_error (lib.parse_payload bytes)) _ h1 in
      let (r, _, h3) = >>=-eq-ok (update_chain_hash lib q) _ h2 in
      let (_, hv, h4) = >>=-eq-ok (validate lib r) _ h3 in let e : r ≡ p = cc in rw (← e) hv

  -- Whatever `from_json` or `from_json_for_production` returns is a valid payload: its version is
  -- supported, its binding mode recognised, its thirteen required strings are not empty; its timestamp,
  -- the acknowledgement's and the bounds of its windows are UTC instants; the envelope's window, where
  -- both bounds are there, and the engagement's window are ordered, the validity interval strictly, and
  -- the timestamp lies in it where the version is 0.6 or 0.7; every digest is `sha256:` and 64 lowercase
  -- hexadecimal digits, the content digest may be null and must be there exactly in 0.7, and each boot
  -- component has a name and a digest; it has a previous hash, a digest, exactly off sequence zero, and
  -- its `chain.hash` is the hash of its own content.
  pub from_json-IsValid :
      (bytes : List ℕ) (p : Payload)
      → (from_json lib bytes ≡ ok p) ⊎ (from_json_for_production lib bytes ≡ ok p)
      → IsValid p
  from_json-IsValid bytes p (inl h) = validate-IsValid p (from_json-validate bytes p h)
  from_json-IsValid bytes p (inr h) =
      validate-IsValid p (from_json_for_production-validate bytes p h)
