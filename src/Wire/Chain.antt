-- ===== src/Wire/Chain.antt =====
-- crates/pask-wire/src/chain.rs
pub mod Spec
pub mod Verdict
pub mod Report
mod Tests
use pask_workspace.Prelude.{
  is_some, ℕ, ◌+◌, ◌%◌, ◌^◌, Option, none, some, List, [], ◌∷◌, ◌++◌, Bool, true, false, not, ◌||◌,
  ◌==◌, if◌then◌else◌, Result, ok, err, Text, bytes_eq, is_empty,
}
use pask_workspace.Wire.Error.{Error}
use pask_workspace.Wire.Payload.Fields.{
  Payload, IssuerAffiliation, affiliated, independent, not_disclosed, unrecognized,
}

pub record AffiliationChange : Type 0 where
  pub at_seq : ℕ
  pub from : IssuerAffiliation
  pub to : IssuerAffiliation

pub record ChainReport : Type 0 where
  pub affiliation_changes : List AffiliationChange

pub affiliation_is_uniform : ChainReport → Bool
affiliation_is_uniform report = is_empty report.affiliation_changes

-- The derived `==`.
abbrev pub affiliation_eq : IssuerAffiliation → IssuerAffiliation → Bool
affiliation_eq affiliated affiliated = true
affiliation_eq independent independent = true
affiliation_eq not_disclosed not_disclosed = true
affiliation_eq (unrecognized a) (unrecognized b) = bytes_eq a b
affiliation_eq _ _ = false

-- `option == Some(text)`
abbrev pub is_text : Option Text → Text → Bool
is_text none text = false
is_text (some t) text = bytes_eq t text

-- `report.affiliation_changes.push(…)`, where the affiliation changes.
pub record_change : Payload → Payload → ChainReport → ChainReport
record_change previous receipt report =
    if not (affiliation_eq receipt.issuer_affiliation previous.issuer_affiliation)
    then record {
      affiliation_changes =
          report.affiliation_changes
          ++ (record {
            at_seq = receipt.chain.seq;
            from = previous.issuer_affiliation;
            to = receipt.issuer_affiliation;
          }
              ∷ []);
    }
    else report

-- The loop over the receipts behind `previous`. Sequence numbers are `u64`.
pub verify_links : Payload → List Payload → ChainReport → Result Error ChainReport
verify_links previous [] report = ok report
verify_links previous (receipt ∷ rest) report =
    let verdict = verify_links receipt rest (record_change previous receipt report) in
    if not (receipt.chain.seq == (previous.chain.seq + 1) % 2 ^ 64)
    then err (Error.validation "chain.seq is not contiguous")
    else if not (is_text receipt.chain.prev_hash previous.chain.hash)
    then err (Error.validation "chain.prevHash does not match the preceding receipt")
    else verdict

pub verify_chain : List Payload → Result Error ChainReport
verify_chain [] = err (Error.validation "chain must carry at least one receipt")
verify_chain (head ∷ rest) =
    if not (head.chain.seq == 0) || is_some head.chain.prev_hash
    then err (Error.validation "chain head must have seq 0 and a null prevHash")
    else verify_links head rest (record { affiliation_changes = [] })
