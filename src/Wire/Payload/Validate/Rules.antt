-- ===== src/Wire/Payload/Validate/Rules.antt =====
-- The rules that `validate` tests, each written out, and that its helpers test them.
use pask_workspace.Prelude.{
  ℕ, zero, suc, ◌≤◌, ◌≡◌, ◌≢◌, refl, ◌⊎◌, inl, inr, arith, Bool, true, false, List, [], ◌∷◌, ◌++◌,
  Option, none, some, Text, bytes_eq, ascii, All, length, is_empty, ends_with, >>=-eq-ok, guard,
  ◌>>◌, Bool-cases, not, Result, ok,
}
use pask_workspace.Wire.Error.{Error}
use pask_workspace.Wire.Digest.{is_lower_hex, all_hex, validate_sha256, validate_sha256-ok}
use pask_workspace.Wire.Json.{Json}
use pask_workspace.Wire.Payload.Fields.{Payload, MeasuredBootComponent, spec_version_07}
use pask_workspace.Wire.Payload.Validate.{
  Libraries, all_nonempty, required_strings, validate_components, validate_content_digest,
  validate_link, parsed, validate_utc, validate_optional, ordered, validate_optional_window,
}

abbrev pub IsLowerHex : ℕ → Type 0
IsLowerHex b = ((48 ≤ b) × (b ≤ 57)) ⊎ ((97 ≤ b) × (b ≤ 102))

-- `sha256:` and 64 lowercase hexadecimal digits.
abbrev pub IsDigest : Text → Type 0
IsDigest value =
    (hex : Text) × (value ≡ ascii "sha256:" ++ hex) × (length hex ≡ 64) × All IsLowerHex hex

-- The link to the preceding receipt: none exactly at sequence zero.
abbrev pub IsLinked : ℕ → Option Text → Type 0
IsLinked zero prev = prev ≡ none
IsLinked (suc seq) prev = (hash : Text) × (prev ≡ some hash) × IsDigest hash

abbrev pub IsComponent : MeasuredBootComponent → Type 0
IsComponent c = (c.name ≢ []) × IsDigest c.digest

-- The content digest, where the version is 0.7 and where it is not.
abbrev pub IsContent : Bool → Option Json → Type 0
IsContent true content =
    (content ≡ some Json.null)
    ⊎ ((digest : Text) × (content ≡ some (Json.string digest)) × IsDigest digest)
IsContent false content = content ≡ none

-- The strings that may not be empty.
pub record HasStrings (p : Payload) : Type 0 where
  pub id : p.id ≢ []
  pub site : p.site.id ≢ []
  pub envelope : p.site.envelope.id ≢ []
  pub actor : p.actor.id ≢ []
  pub operator : p.actor.operator ≢ []
  pub engagement : p.engagement.id ≢ []
  pub engagement_type : p.engagement.type ≢ []
  pub tee_class : p.attestation.tee_class ≢ []
  pub platform_encoding : p.attestation.platform_evidence.encoding ≢ []
  pub sealed_encoding : p.attestation.sealed_evidence.encoding ≢ []
  pub witness_key : p.attestation.witness_key ≢ []
  pub system : p.adapter.system ≢ []
  pub endpoint : p.adapter.endpoint ≢ []

-- The digests, each in its form.
pub record HasDigests (p : Payload) : Type 0 where
  pub envelope : IsDigest p.site.envelope.digest
  pub evidence : IsDigest p.engagement.evidence_digest
  pub content : IsContent (bytes_eq p.spec spec_version_07) p.engagement.content_digest
  pub boot_chain : IsDigest p.attestation.measured_boot.chain
  pub platform : IsDigest p.attestation.platform_evidence.digest
  pub sealed_evidence : IsDigest p.attestation.sealed_evidence.digest
  pub components : All IsComponent p.attestation.measured_boot.components
  pub acknowledgement : IsDigest p.adapter.ack_digest
  pub chain : IsDigest p.chain.hash

all_hex-All : (hex : Text) → all_hex hex ≡ true → All IsLowerHex hex
unfolding all_hex is_lower_hex
all_hex-All [] h = tt
all_hex-All (b ∷ bs) h = (ground arith, all_hex-All bs (ground arith))

pub validate_sha256-IsDigest : (value : Text) → validate_sha256 value ≡ ok tt → IsDigest value
validate_sha256-IsDigest value h =
    let (hex, e, l, a) = validate_sha256-ok value h in (hex, e, l, all_hex-All hex a)

pub validate_link-IsLinked :
    (seq : ℕ) (prev : Option Text) → validate_link seq prev ≡ ok tt → IsLinked seq prev
unfolding validate_link
validate_link-IsLinked zero none e = refl
validate_link-IsLinked zero (some h) e = cc
validate_link-IsLinked (suc n) (some h) e = (h, refl, validate_sha256-IsDigest h e)
validate_link-IsLinked (suc n) none e = cc

all_nonempty-All : (xs : List Text) → all_nonempty xs ≡ true → All (λ x. x ≢ []) xs
unfolding all_nonempty
all_nonempty-All [] h = tt
all_nonempty-All ([] ∷ xs) h = cc
all_nonempty-All ((c ∷ cs) ∷ xs) h = ((λ e. cc), all_nonempty-All xs h)

pub required-HasStrings : (p : Payload) → all_nonempty (required_strings p) ≡ true → HasStrings p
unfolding required_strings
required-HasStrings p h =
    let (a, (b, (c, (d, (e, (f, (g, (i, (j, (k, (l, (m, (n, _))))))))))))) =
      all_nonempty-All (required_strings p) h in
    record {
      id = a;
      site = b;
      envelope = c;
      actor = d;
      operator = e;
      engagement = f;
      engagement_type = g;
      tee_class = i;
      platform_encoding = j;
      sealed_encoding = k;
      witness_key = l;
      system = m;
      endpoint = n;
    }

pub validate_components-All :
    (cs : List MeasuredBootComponent) → validate_components cs ≡ ok tt → All IsComponent cs
unfolding validate_components
validate_components-All [] h = tt
validate_components-All (c ∷ cs) h =
    let (named, h1) = nonempty c.name h in
    let (_, digest, h2) = >>=-eq-ok (validate_sha256 c.digest) _ h1 in
    ((named, validate_sha256-IsDigest c.digest digest), validate_components-All cs h2)
  where
    nonempty :
        (name : Text) {rest : Result Error (Unit {0})}
        → (guard
              (not (is_empty name))
              (Error.validation "measured-boot component name must not be empty")
            >> rest)
          ≡ ok tt
        → (name ≢ []) × (rest ≡ ok tt)
    nonempty [] h = cc
    nonempty (c ∷ cs) h = ((λ e. cc), h)

pub validate_content_digest-IsContent :
    (strict : Bool) (content : Option Json)
    → validate_content_digest strict content ≡ ok tt
    → IsContent strict content
unfolding validate_content_digest
validate_content_digest-IsContent true (some Json.null) h = inl refl
validate_content_digest-IsContent true (some (Json.string digest)) h =
    inr (digest, refl, validate_sha256-IsDigest digest h)
validate_content_digest-IsContent true none h = cc
validate_content_digest-IsContent true (some (Json.bool b)) h = cc
validate_content_digest-IsContent true (some (Json.number n)) h = cc
validate_content_digest-IsContent true (some (Json.array items)) h = cc
validate_content_digest-IsContent true (some (Json.object fields)) h = cc
validate_content_digest-IsContent false none h = refl
validate_content_digest-IsContent false (some content) h = cc

module _ (lib : Libraries) where
  -- A timestamp with the suffix `Z` that reads as this instant.
  abbrev pub IsInstant : Text → ℕ → Type 0
  IsInstant text instant = (ends_with b'Z' text ≡ true) × (lib.parse_rfc3339 text ≡ some instant)

  -- The bounds that are there read as instants, and two of them are in order.
  abbrev pub IsOrdered : Option Text → Option Text → Type 0
  IsOrdered none none = Unit {0}
  IsOrdered none (some end) = (e : ℕ) × IsInstant end e
  IsOrdered (some start) none = (s : ℕ) × IsInstant start s
  IsOrdered (some start) (some end) =
      (s : ℕ) × (e : ℕ) × IsInstant start s × IsInstant end e × (s ≤ e)

  parsed-ok : (o : Option ℕ) (instant : ℕ) → parsed lib o ≡ ok instant → o ≡ some instant
  unfolding parsed
  parsed-ok none instant h = cc
  parsed-ok (some i) instant h = cc

  pub validate_utc-IsInstant :
      (text : Text) (instant : ℕ) → validate_utc lib text ≡ ok instant → IsInstant text instant
  unfolding validate_utc
  validate_utc-IsInstant text instant h = elim (Bool-cases (ends_with b'Z' text)) [
    | inl z ↦ (z, parsed-ok (lib.parse_rfc3339 text) instant (ground (arith, z)))
    | inr z ↦ absurd (ground (arith, z))
  ]

  pub validate_optional_window-IsOrdered :
      (starts ends : Option Text)
      → validate_optional_window lib starts ends ≡ ok tt
      → IsOrdered starts ends
  unfolding validate_optional_window validate_optional ordered
  validate_optional_window-IsOrdered none none h = tt
  validate_optional_window-IsOrdered none (some end) h =
      let (_, he, _) = >>=-eq-ok (validate_optional lib (some end)) _ h in
      let (e, read, _) = >>=-eq-ok (validate_utc lib end) _ he in
      (e, validate_utc-IsInstant end e read)
  validate_optional_window-IsOrdered (some start) none h =
      let (_, hs, _) = >>=-eq-ok (validate_optional lib (some start)) _ h in
      let (s, read, _) = >>=-eq-ok (validate_utc lib start) _ hs in
      (s, validate_utc-IsInstant start s read)
  validate_optional_window-IsOrdered (some start) (some end) h =
      let (os, hs, h1) = >>=-eq-ok (validate_optional lib (some start)) _ h in
      let (oe, he, h2) = >>=-eq-ok (validate_optional lib (some end)) _ h1 in
      let (s, read_s, ds) = >>=-eq-ok (validate_utc lib start) _ hs in
      let (e, read_e, de) = >>=-eq-ok (validate_utc lib end) _ he in
      (
        s,
        e,
        validate_utc-IsInstant start s read_s,
        validate_utc-IsInstant end e read_e,
        ground arith,
      )
