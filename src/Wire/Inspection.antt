-- ===== src/Wire/Inspection.antt =====
-- crates/pask-wire/src/receipt_inspection.rs: findings, limits, policies and problems.
pub mod Claims
pub mod Report
pub mod Headers
pub mod Inspect
pub mod Triples
pub mod Sound
pub mod Tests
use pask_workspace.Prelude.{ℕ, ltb, leb, ◌&&◌, Bool, true, false, List, [], ◌∷◌, String}

-- InspectionStatus
pub data Status : Type 0 where
  passed failed unsupported unestablished not_evaluated : Status

-- InspectionFinding
pub record Finding : Type 0 where
  pub status : Status
  pub code : String
  pub detail : String
  pub evidence_refs : List String

-- InspectionLimits
pub record Limits : Type 0 where
  pub max_receipt_bytes : ℕ
  pub max_protected_bytes : ℕ
  pub max_signature_bytes : ℕ
  pub max_cbor_nesting : ℕ
  pub max_cbor_items : ℕ
  pub max_map_entries : ℕ
  pub max_proofs_per_receipt : ℕ
  pub max_path_nodes_per_proof : ℕ
  pub max_certificate_chain_length : ℕ
  pub max_certificate_bytes : ℕ
  pub max_claim_text_characters : ℕ
  pub max_tree_size : ℕ

abbrev pub default_limits : Limits
default_limits = record {
  max_receipt_bytes = 1048576;
  max_protected_bytes = 65536;
  max_signature_bytes = 1024;
  max_cbor_nesting = 16;
  max_cbor_items = 4096;
  max_map_entries = 64;
  max_proofs_per_receipt = 16;
  max_path_nodes_per_proof = 64;
  max_certificate_chain_length = 8;
  max_certificate_bytes = 65536;
  max_claim_text_characters = 8192;
  max_tree_size = 18446744073709551615;
}

-- InspectionPolicy
pub record Policy : Type 0 where
  pub strict_cross_map : Bool
  pub limits : Limits

-- One limit of the macro `bounded!`.
abbrev pub bounded : ℕ → ℕ → Bool
bounded limit ceiling = ltb 0 limit && leb limit ceiling

-- InspectionPolicy::valid
unfoldable pub policy_valid : Policy → Bool
policy_valid p =
    bounded p.limits.max_receipt_bytes default_limits.max_receipt_bytes
    && bounded p.limits.max_protected_bytes default_limits.max_protected_bytes
    && bounded p.limits.max_signature_bytes default_limits.max_signature_bytes
    && bounded p.limits.max_cbor_nesting default_limits.max_cbor_nesting
    && bounded p.limits.max_cbor_items default_limits.max_cbor_items
    && bounded p.limits.max_map_entries default_limits.max_map_entries
    && bounded p.limits.max_proofs_per_receipt default_limits.max_proofs_per_receipt
    && bounded p.limits.max_path_nodes_per_proof default_limits.max_path_nodes_per_proof
    && bounded p.limits.max_certificate_chain_length default_limits.max_certificate_chain_length
    && bounded p.limits.max_certificate_bytes default_limits.max_certificate_bytes
    && bounded p.limits.max_claim_text_characters default_limits.max_claim_text_characters
    && bounded p.limits.max_tree_size default_limits.max_tree_size

pub data Dimension : Type 0 where
  structure claims policy : Dimension

pub record Problem : Type 0 where
  pub dimension : Dimension
  pub code : String

-- Problem::structure, Problem::policy and Problem::claims
abbrev pub structure_problem : String → Problem
structure_problem code = record { dimension = Dimension.structure; code = code }

abbrev pub policy_problem : String → Problem
policy_problem code = record { dimension = Dimension.policy; code = code }

abbrev pub claims_problem : String → Problem
claims_problem code = record { dimension = Dimension.claims; code = code }
