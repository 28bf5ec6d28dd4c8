-- ===== src/Wire/Chain/Spec.antt =====
-- What a chain is, and where its affiliation changes, with no loop and no accumulator.
use pask_workspace.Prelude.{◌+◌, ◌%◌, ◌^◌, ◌≡◌, none, some, List, [], ◌∷◌, ◌++◌, if◌then◌else◌}
use pask_workspace.Wire.Payload.Fields.{Payload}
use pask_workspace.Wire.Chain.{AffiliationChange, affiliation_eq}

-- Each receipt is the successor of the one before it.
abbrev pub Follows : Payload → List Payload → Type 0
Follows previous [] = Unit
Follows previous (receipt ∷ rest) =
    (receipt.chain.seq ≡ (previous.chain.seq + 1) % 2 ^ 64)
    × (receipt.chain.prev_hash ≡ some previous.chain.hash)
    × Follows receipt rest

abbrev pub IsChain : List Payload → Type 0
IsChain [] = ⊥
IsChain (head ∷ rest) = (head.chain.seq ≡ 0) × (head.chain.prev_hash ≡ none) × Follows head rest

abbrev pub change_between : Payload → Payload → List AffiliationChange
change_between previous receipt =
    if affiliation_eq receipt.issuer_affiliation previous.issuer_affiliation
    then []
    else record {
      at_seq = receipt.chain.seq;
      from = previous.issuer_affiliation;
      to = receipt.issuer_affiliation;
    }
      ∷ []

unfoldable pub changes_after : Payload → List Payload → List AffiliationChange
changes_after previous [] = []
changes_after previous (receipt ∷ rest) =
    change_between previous receipt ++ changes_after receipt rest

unfoldable pub changes : List Payload → List AffiliationChange
changes [] = []
changes (head ∷ rest) = changes_after head rest
