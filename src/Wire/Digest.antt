-- ===== src/Wire/Digest.antt =====
-- crates/pask-wire/src/digest.rs. SHA-256 is a parameter.
use pask_workspace.Prelude.{
  ℕ, ◌+◌, ◌/◌, ◌%◌, ◌<◌, ◌≡◌, refl, arith, Bool, true, not, ◌&&◌, ◌||◌, List, [], ◌∷◌, ◌++◌, Option,
  none, some, leb, ltb, ◌==◌, if◌then◌else◌, length, All, Text, ascii, strip_prefix,
  strip_prefix-append, Result, ok, err,
}
use pask_workspace.Wire.Error.{Error}

-- One digit of `{byte:02x}`.
abbrev pub hex_digit : ℕ → ℕ
hex_digit n = if ltb n 10 then 48 + n else 87 + n

unfoldable pub hex : List ℕ → Text
hex [] = []
hex (byte ∷ bytes) = hex_digit (byte / 16) ∷ hex_digit (byte % 16) ∷ hex bytes

unfoldable pub sha256_prefixed : (List ℕ → List ℕ) → List ℕ → Text
sha256_prefixed sha256 bytes = ascii "sha256:" ++ hex (sha256 bytes)

unfoldable pub is_lower_hex : ℕ → Bool
is_lower_hex byte = leb 48 byte && leb byte 57 || leb 97 byte && leb byte 102

unfoldable pub all_hex : Text → Bool
all_hex [] = true
all_hex (byte ∷ bytes) = is_lower_hex byte && all_hex bytes

abbrev pub after_prefix : Option Text → Result Error (Unit {0})
after_prefix none = err (Error.validation "digest prefix must be sha256:")
after_prefix (some hex) =
    if not (length hex == 64) || not (all_hex hex)
    then err (Error.validation "digest must contain 64 lowercase hexadecimal digits")
    else ok tt

unfoldable pub validate_sha256 : Text → Result Error (Unit {0})
validate_sha256 value = after_prefix (strip_prefix (ascii "sha256:") value)

after_prefix-ok :
    (o : Option Text)
    → after_prefix o ≡ ok tt
    → (rest : Text) × (o ≡ some rest) × (length rest ≡ 64) × (all_hex rest ≡ true)
after_prefix-ok none h = cc
after_prefix-ok (some rest) h = (rest, refl, ground arith, ground arith)

-- A validated digest is the prefix and 64 lowercase hexadecimal digits.
pub validate_sha256-ok :
    (value : Text)
    → validate_sha256 value ≡ ok tt
    → (rest : Text) × (value ≡ ascii "sha256:" ++ rest) × (length rest ≡ 64) × (all_hex rest ≡ true)
unfolding validate_sha256
validate_sha256-ok value h =
    let (rest, e, l, a) = after_prefix-ok (strip_prefix (ascii "sha256:") value) h in
    (rest, strip_prefix-append (ascii "sha256:") value rest e, l, a)

hex-All : (bytes : List ℕ) → All (λ b. b < 256) bytes → all_hex (hex bytes) ≡ true
unfolding all_hex hex is_lower_hex
hex-All [] h = refl
hex-All (b ∷ bs) h = ground (arith, hex-All bs)

length-hex : (bytes : List ℕ) → length (hex bytes) ≡ length bytes + length bytes
unfolding hex
length-hex [] = refl
length-hex (b ∷ bs) = omega (arith, length-hex bs)

-- What `sha256_prefixed` writes passes `validate_sha256`.
pub validate_sha256-sha256_prefixed :
    (sha256 : List ℕ → List ℕ) (bytes : List ℕ)
    → length (sha256 bytes) ≡ 32
    → All (λ b. b < 256) (sha256 bytes)
    → validate_sha256 (sha256_prefixed sha256 bytes) ≡ ok tt
unfolding validate_sha256 sha256_prefixed
validate_sha256-sha256_prefixed sha256 bytes h k =
    ground (arith, length-hex (sha256 bytes), hex-All (sha256 bytes) k)

-- Different digests are written differently.
pub hex-injective :
    (xs ys : List ℕ) → All (λ b. b < 256) xs → All (λ b. b < 256) ys → hex xs ≡ hex ys → xs ≡ ys
unfolding hex
hex-injective [] [] h k e = refl
hex-injective [] (y ∷ ys) h k e = cc
hex-injective (x ∷ xs) [] h k e = cc
hex-injective (x ∷ xs) (y ∷ ys) h k e = ground (arith, hex-injective xs ys)
