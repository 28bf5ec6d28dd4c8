-- ===== src/Attest/TeeClass.antt =====
-- crates/pask-attest/src/tee_class.rs
use pask_workspace.Prelude.{
  ◌≡◌, refl, ◌↔◌, List, [], ◌∷◌, Option, none, some, Text, ascii, bytes_eq, bytes_eq→eq, find,
  find-true, Result, ok, err,
}
use pask_workspace.Attest.Error.{AttestationError}

pub data TeeClass : Type 0 where
  intel_tdx : TeeClass
  amd_sev_snp : TeeClass
  arm_cca : TeeClass
  nvidia_h100_cc : TeeClass
  nvidia_jetson_thor_cc : TeeClass
  aws_nitro_enclave : TeeClass

unfoldable pub all_classes : List TeeClass
all_classes =
    TeeClass.intel_tdx ∷ TeeClass.amd_sev_snp ∷ TeeClass.arm_cca ∷ TeeClass.nvidia_h100_cc
    ∷ TeeClass.nvidia_jetson_thor_cc ∷ TeeClass.aws_nitro_enclave ∷ []

unfoldable pub as_str : TeeClass → Text
as_str TeeClass.intel_tdx = ascii "intel.tdx"
as_str TeeClass.amd_sev_snp = ascii "amd.sev-snp"
as_str TeeClass.arm_cca = ascii "arm.cca"
as_str TeeClass.nvidia_h100_cc = ascii "nvidia.h100-cc"
as_str TeeClass.nvidia_jetson_thor_cc = ascii "nvidia.jetson-thor-cc"
as_str TeeClass.aws_nitro_enclave = ascii "aws.nitro-enclave"

abbrev found : Text → Option TeeClass → Result AttestationError TeeClass
found value none = err (AttestationError.unsupported_tee_class value)
found value (some class) = ok class

unfoldable pub from_str : Text → Result AttestationError TeeClass
from_str value = found value (find (λ class. bytes_eq (as_str class) value) all_classes)

found-ok :
    (value : Text) (o : Option TeeClass) (class : TeeClass)
    → found value o ≡ ok class
    → o ≡ some class
found-ok value none class e = cc
found-ok value (some c) class e = cc

from_str-as_str : (class : TeeClass) → from_str (as_str class) ≡ ok class
unfolding from_str as_str all_classes
from_str-as_str TeeClass.intel_tdx = refl
from_str-as_str TeeClass.amd_sev_snp = refl
from_str-as_str TeeClass.arm_cca = refl
from_str-as_str TeeClass.nvidia_h100_cc = refl
from_str-as_str TeeClass.nvidia_jetson_thor_cc = refl
from_str-as_str TeeClass.aws_nitro_enclave = refl

pub from_str-ok :
    (value : Text) (class : TeeClass) → from_str value ≡ ok class → as_str class ≡ value
unfolding from_str
from_str-ok value class e =
    bytes_eq→eq (as_str class) value
      (find-true (λ c. bytes_eq (as_str c) value) all_classes (found-ok value _ class e))

-- A string is read as a TEE class exactly if it is the identifier of that class.
pub from_str_iff :
    (value : Text) (class : TeeClass) → (from_str value ≡ ok class) ↔ (as_str class ≡ value)
from_str_iff value class = (from_str-ok value class, λ e. rw (← e) (from_str-as_str class))
