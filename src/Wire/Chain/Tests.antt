-- ===== src/Wire/Chain/Tests.antt =====
-- Runs and instances over a chain of three receipts.
use pask_workspace.Prelude.{
  ◌≡◌, ◌↔◌, refl, arith, true, some, List, [], ◌∷◌, ◌++◌, All, Text, ok, err,
}
use pask_workspace.Wire.Error.{Error}
use pask_workspace.Wire.Payload.Fields.{Payload, IssuerAffiliation}
use pask_workspace.Wire.Payload.Validate.{expected_chain_hash}
use pask_workspace.Wire.Payload.Validate.Samples.{
  genesis, second, third, sample_libraries, genesis-IsValid, second-IsValid,
}
use pask_workspace.Wire.Chain.{
  ChainReport, AffiliationChange, affiliation_is_uniform, record_change, verify_links, verify_chain,
}
use pask_workspace.Wire.Chain.Spec.{IsChain, changes}
use pask_workspace.Wire.Chain.Verdict.{verify_chain_iff}
use pask_workspace.Wire.Chain.Report.{
  verify_chain-seq, affiliation_is_uniform_iff, verify_chain-append, verify_chain-hash,
}

abbrev first_change : AffiliationChange
first_change = record {
  at_seq = 1;
  from = IssuerAffiliation.independent;
  to = IssuerAffiliation.affiliated;
}

abbrev report : ChainReport
report = record { affiliation_changes = first_change ∷ [] }

abbrev receipts : List Payload
receipts = genesis ∷ second ∷ third ∷ []

accepted : verify_chain receipts ≡ ok report
unfolding verify_chain verify_links record_change
accepted = refl

gap_refused :
    verify_chain (genesis ∷ third ∷ []) ≡ err (Error.validation "chain.seq is not contiguous")
unfolding verify_chain verify_links record_change
gap_refused = refl

verify_chain_iff_example :
    (verify_chain receipts ≡ ok report)
    ↔ (IsChain receipts × (report.affiliation_changes ≡ changes receipts))
verify_chain_iff_example = verify_chain_iff receipts report

verify_chain-seq_example : third.chain.seq ≡ 2
verify_chain-seq_example = verify_chain-seq receipts report 2 third accepted refl (omega arith)

affiliation_is_uniform_iff_example :
    (affiliation_is_uniform report ≡ true)
    ↔ All
        (λ (r : Payload). r.issuer_affiliation ≡ IssuerAffiliation.independent)
        (second ∷ third ∷ [])
affiliation_is_uniform_iff_example =
    affiliation_is_uniform_iff genesis (second ∷ third ∷ []) report accepted

verify_chain-append_example :
    (before : ChainReport) × (added : List AffiliationChange) × (verify_chain
        (genesis ∷ second ∷ [])
      ≡ ok before)
    × (report.affiliation_changes ≡ before.affiliation_changes ++ added)
verify_chain-append_example = verify_chain-append genesis (second ∷ []) (third ∷ []) report accepted

abbrev pair_report : ChainReport
pair_report = record { affiliation_changes = first_change ∷ [] }

pair_accepted : verify_chain (genesis ∷ second ∷ []) ≡ ok pair_report
unfolding verify_chain verify_links record_change
pair_accepted = refl

verify_chain-hash_example :
    (hash : Text) × (second.chain.prev_hash ≡ some hash)
    × (expected_chain_hash sample_libraries genesis ≡ ok hash)
verify_chain-hash_example =
    verify_chain-hash sample_libraries (genesis ∷ second ∷ []) pair_report 0 genesis second
      (genesis-IsValid, (second-IsValid, tt)) pair_accepted refl refl
