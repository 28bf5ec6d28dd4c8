-- ===== src/Wire/Chain/Report.antt =====
-- What an accepted chain and its report say about the receipts in it.
use pask_workspace.Prelude.{
  ℕ, zero, suc, ◌+◌, ◌^◌, ◌≡◌, ◌<◌, refl, ap, sym, ◌∙◌, ◌↔◌, arith, some, List, [], ◌∷◌, ◌++◌,
  append_assoc, Text, bytes_eq→eq, bytes_eq_refl, ok, true, get_elem?, is_empty, All,
}
use pask_workspace.Wire.Payload.Fields.{
  Payload, IssuerAffiliation, affiliated, independent, not_disclosed, unrecognized,
}
use pask_workspace.Wire.Payload.Validate.{Libraries, expected_chain_hash}
use pask_workspace.Wire.Payload.Validate.Valid.{IsValid}
use pask_workspace.Wire.Chain.{
  ChainReport, AffiliationChange, affiliation_eq, affiliation_is_uniform, verify_chain,
}
use pask_workspace.Wire.Chain.Spec.{Follows, change_between, changes_after, changes}
use pask_workspace.Wire.Chain.Verdict.{verify_chain_iff}

affiliation_eq→eq : (a b : IssuerAffiliation) → affiliation_eq a b ≡ true → a ≡ b
affiliation_eq→eq affiliated b h = ground arith
affiliation_eq→eq independent b h = ground arith
affiliation_eq→eq not_disclosed b h = ground arith
affiliation_eq→eq (unrecognized s) (unrecognized t) h = ap unrecognized (bytes_eq→eq s t h)
affiliation_eq→eq (unrecognized s) affiliated h = cc
affiliation_eq→eq (unrecognized s) independent h = cc
affiliation_eq→eq (unrecognized s) not_disclosed h = cc

Follows-seq :
    (previous : Payload) (rest : List Payload) (i n : ℕ) (r : Payload)
    → Follows previous rest
    → get_elem? rest i ≡ some r
    → n ≡ previous.chain.seq + suc i
    → n < 2 ^ 64
    → r.chain.seq ≡ n
Follows-seq previous [] i n r f e en h = cc
Follows-seq previous (x ∷ rest) zero n r (s, p, f) e en h =
    let x_is_r : x ≡ r = cc in rw (← x_is_r) (omega arith)
Follows-seq previous (x ∷ rest) (suc i) n r (s, p, f) e en h =
    Follows-seq x rest i n r f e (omega arith) h

-- In an accepted chain the receipt at place `i` has sequence number `i`.
pub verify_chain-seq :
    (receipts : List Payload) (report : ChainReport) (i : ℕ) (r : Payload)
    → verify_chain receipts ≡ ok report
    → get_elem? receipts i ≡ some r
    → i < 2 ^ 64
    → r.chain.seq ≡ i
verify_chain-seq [] report i r h e k = cc
verify_chain-seq (head ∷ rest) report zero r h e k =
    let head_is_r : head ≡ r = cc in
    let (s, _, _) = ((verify_chain_iff (head ∷ rest) report).0 h).0 in rw (← head_is_r) s
verify_chain-seq (head ∷ rest) report (suc i) r h e k =
    let (s, _, f) = ((verify_chain_iff (head ∷ rest) report).0 h).0 in
    Follows-seq head rest i (suc i) r f e (omega arith) k

change_between-nil :
    (a b : Payload) → change_between a b ≡ [] → b.issuer_affiliation ≡ a.issuer_affiliation
change_between-nil a b h = affiliation_eq→eq _ _ (ground arith)

affiliation_eq_refl : (a : IssuerAffiliation) → affiliation_eq a a ≡ true
affiliation_eq_refl affiliated = refl
affiliation_eq_refl independent = refl
affiliation_eq_refl not_disclosed = refl
affiliation_eq_refl (unrecognized s) = bytes_eq_refl s

eq→affiliation_eq : (a b : IssuerAffiliation) → a ≡ b → affiliation_eq a b ≡ true
eq→affiliation_eq a b e = rw e (affiliation_eq_refl b)

append-eq-nil {ℓ} : {A : Type ℓ} (xs ys : List A) → (xs ++ ys) ≡ [] → (xs ≡ []) × (ys ≡ [])
append-eq-nil [] ys h = (refl, h)
append-eq-nil (x ∷ xs) ys h = cc

abbrev AllSay : IssuerAffiliation → List Payload → Type 0
AllSay a rest = All (λ (r : Payload). r.issuer_affiliation ≡ a) rest

changes_after-nil :
    (previous : Payload) (rest : List Payload) (a : IssuerAffiliation)
    → previous.issuer_affiliation ≡ a
    → changes_after previous rest ≡ []
    → AllSay a rest
unfolding changes_after
changes_after-nil previous [] a e h = tt
changes_after-nil previous (r ∷ rest) a e h =
    let (now, later) = append-eq-nil (change_between previous r) (changes_after r rest) h in
    let same : r.issuer_affiliation ≡ a = change_between-nil previous r now ∙ e in
    (same, changes_after-nil r rest a same later)

changes_after-same :
    (previous : Payload) (rest : List Payload) (a : IssuerAffiliation)
    → previous.issuer_affiliation ≡ a
    → AllSay a rest
    → changes_after previous rest ≡ []
unfolding changes_after
changes_after-same previous [] a e h = refl
changes_after-same previous (r ∷ rest) a e h = ground (
  arith,
  eq→affiliation_eq r.issuer_affiliation previous.issuer_affiliation (h.0 ∙ sym e),
  changes_after-same r rest a h.0 h.1,
)

is_empty_iff {ℓ} : {A : Type ℓ} (xs : List A) → (is_empty xs ≡ true) ↔ (xs ≡ [])
is_empty_iff [] = (λ h. refl, λ h. refl)
is_empty_iff (x ∷ xs) = (λ h. cc, λ h. cc)

-- The report of an accepted chain says that the affiliation is uniform exactly if every receipt
-- carries the affiliation of the first.
pub affiliation_is_uniform_iff :
    (head : Payload) (rest : List Payload) (report : ChainReport)
    → verify_chain (head ∷ rest) ≡ ok report
    → (affiliation_is_uniform report ≡ true)
      ↔ All (λ (r : Payload). r.issuer_affiliation ≡ head.issuer_affiliation) rest
unfolding affiliation_is_uniform changes
affiliation_is_uniform_iff head rest report h =
    let e : report.affiliation_changes ≡ changes_after head rest =
      ((verify_chain_iff (head ∷ rest) report).0 h).1 in
    (
      λ u.
          changes_after-nil head rest _ refl
            (sym e ∙ (is_empty_iff report.affiliation_changes).0 u),
      λ u. (is_empty_iff report.affiliation_changes).1 (e ∙ changes_after-same head rest _ refl u),
    )

Follows-prefix :
    (previous : Payload) (rest more : List Payload)
    → Follows previous (rest ++ more)
    → Follows previous rest
Follows-prefix previous [] more h = tt
Follows-prefix previous (r ∷ rest) more (s, p, f) = (s, p, Follows-prefix r rest more f)

changes_after-append :
    (previous : Payload) (rest more : List Payload)
    → (added : List AffiliationChange) × (changes_after previous (rest ++ more)
        ≡ changes_after previous rest ++ added)
unfolding changes_after
changes_after-append previous [] more = (changes_after previous more, refl)
changes_after-append previous (r ∷ rest) more =
    let (added, e) = changes_after-append r rest more in (added, rw (e, append_assoc))

-- Receipts appended to a chain cannot relabel it: the chain without them is accepted too, and every
-- change reported for it is reported, at the same place, with them.
pub verify_chain-append :
    (head : Payload) (rest more : List Payload) (report : ChainReport)
    → verify_chain (head ∷ (rest ++ more)) ≡ ok report
    → (before : ChainReport) × (added : List AffiliationChange) × (verify_chain (head ∷ rest)
        ≡ ok before)
      × (report.affiliation_changes ≡ before.affiliation_changes ++ added)
unfolding changes
verify_chain-append head rest more report h =
    let ((s, p, f), e) = (verify_chain_iff (head ∷ (rest ++ more)) report).0 h in
    let (added, a) = changes_after-append head rest more in
    let before : ChainReport = record { affiliation_changes = changes_after head rest } in
    (
      before,
      added,
      (verify_chain_iff (head ∷ rest) before).1 ((s, p, Follows-prefix head rest more f), refl),
      e ∙ a,
    )

Follows-hash :
    (lib : Libraries) (previous : Payload) (rest : List Payload) (i : ℕ) (a b : Payload)
    → IsValid lib previous
    → All (IsValid lib) rest
    → Follows previous rest
    → get_elem? (previous ∷ rest) i ≡ some a
    → get_elem? rest i ≡ some b
    → (hash : Text) × (b.chain.prev_hash ≡ some hash) × (expected_chain_hash lib a ≡ ok hash)
Follows-hash lib previous [] i a b v vs f ea eb = cc
Follows-hash lib previous (r ∷ rest) zero a b v vs f ea eb =
    let pa : previous ≡ a = cc in
    let pb : r ≡ b = cc in (previous.chain.hash, rw (← pb) f.1, rw (← pa) v.hashed)
Follows-hash lib previous (r ∷ rest) (suc i) a b v vs f ea eb =
    Follows-hash lib r rest i a b vs.0 vs.1 f.2 ea eb

-- In an accepted chain of valid payloads every receipt carries, as its previous hash, the hash
-- computed from the content of the receipt before it.
pub verify_chain-hash :
    (lib : Libraries) (receipts : List Payload) (report : ChainReport) (i : ℕ) (a b : Payload)
    → All (IsValid lib) receipts
    → verify_chain receipts ≡ ok report
    → get_elem? receipts i ≡ some a
    → get_elem? receipts (suc i) ≡ some b
    → (hash : Text) × (b.chain.prev_hash ≡ some hash) × (expected_chain_hash lib a ≡ ok hash)
verify_chain-hash lib [] report i a b v h ea eb = cc
verify_chain-hash lib (head ∷ rest) report i a b v h ea eb =
    Follows-hash lib head rest i a b v.0 v.1 ((verify_chain_iff (head ∷ rest) report).0 h).0.2 ea eb
