-- ===== src/Attest/Boot.antt =====
-- crates/pask-attest/src/measured_boot.rs. SHA-256 and serde_json are parameters.
use pask_workspace.Prelude.{
  ℕ, ◌≡◌, arith, List, [], ◌∷◌, String, Text, bytes_eq, bytes_eq→eq, guard, Result, ok, err, ◌>>=◌,
  ◌>>◌, >>=-eq-ok,
}
use pask_workspace.Wire.Digest.{sha256_prefixed, validate_sha256}
use pask_workspace.Wire.Json.{Json, JsonText, canonicalize_json}
use pask_workspace.Attest.Error.{AttestationError, wire}

pub record BootComponent : Type 0 where
  pub name : Text
  pub digest : Text

pub record MeasuredBoot : Type 0 where
  pub chain : Text
  pub components : List BootComponent

-- The map and `collect`: the first digest refused ends it.
unfoldable pub components_from_wire :
    List (Text × Text) → Result AttestationError (List BootComponent)
components_from_wire [] = ok []
components_from_wire ((name, digest) ∷ cs) = do
  wire (validate_sha256 digest)
  rest ← components_from_wire cs
  ok (record { name = name; digest = digest } ∷ rest)

unfoldable pub from_wire : Text → List (Text × Text) → Result AttestationError MeasuredBoot
from_wire chain components = do
  wire (validate_sha256 chain)
  components ← components_from_wire components
  ok (record { chain = chain; components = components })

pub record BootLibraries : Type 0 where
  -- sha2
  pub sha256 : List ℕ → List ℕ
  -- serde_json: `to_vec` of a list of components, `from_slice` at the type `Value`
  pub components_json : List BootComponent → Result Text (List ℕ)
  pub from_slice : List ℕ → Result String Json
  pub text : JsonText

abbrev pub serialized : Result Text (List ℕ) → Result AttestationError (List ℕ)
serialized (ok bytes) = ok bytes
serialized (err error) = err (AttestationError.wire_error error)

module _ (lib : BootLibraries) where
  unfoldable pub boot_bytes : List BootComponent → Result AttestationError (List ℕ)
  boot_bytes components = do
    bytes ← serialized (lib.components_json components)
    wire (canonicalize_json lib.text lib.from_slice bytes)

  unfoldable pub verify_boot_chain : MeasuredBoot → Result AttestationError (Unit {0})
  verify_boot_chain boot = do
    canonical ← boot_bytes boot.components
    guard (bytes_eq (sha256_prefixed lib.sha256 canonical) boot.chain)
        AttestationError.measured_boot_mismatch
    ok tt

  -- An accepted chain digest is the digest of the canonical form of the components in their order.
  pub verify_boot_chain-ok :
      (boot : MeasuredBoot)
      → verify_boot_chain boot ≡ ok tt
      → (bytes : List ℕ) × (boot_bytes boot.components ≡ ok bytes)
        × (boot.chain ≡ sha256_prefixed lib.sha256 bytes)
  unfolding verify_boot_chain
  verify_boot_chain-ok boot h =
      let (bytes, e, h1) = >>=-eq-ok (boot_bytes boot.components) _ h in
      (bytes, e, ground (arith, bytes_eq→eq (sha256_prefixed lib.sha256 bytes) boot.chain))
