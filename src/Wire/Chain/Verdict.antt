-- ===== src/Wire/Chain/Verdict.antt =====
-- `verify_chain` accepts exactly the chains, and reports exactly the changes.
use pask_workspace.Prelude.{
  ◌≡◌, refl, ap, sym, ◌∙◌, ◌↔◌, arith, Option, none, some, List, [], ◌∷◌, ◌++◌, append-nil,
  append_assoc, Text, bytes_eq→eq, bytes_eq_refl, ok, true, Bool-cases, inl, inr,
}
use pask_workspace.Wire.Payload.Fields.{Payload}
use pask_workspace.Wire.Chain.{
  ChainReport, affiliation_eq, is_text, record_change, verify_links, verify_chain,
}
use pask_workspace.Wire.Chain.Spec.{Follows, IsChain, change_between, changes_after, changes}

is_text→eq : (o : Option Text) (t : Text) → is_text o t ≡ true → o ≡ some t
is_text→eq none t h = cc
is_text→eq (some s) t h = ap some (bytes_eq→eq s t h)

eq→is_text : (o : Option Text) (t : Text) → o ≡ some t → is_text o t ≡ true
eq→is_text none t e = cc
eq→is_text (some s) t e = let same : t ≡ s = cc in rw same (bytes_eq_refl s)

record_change-append :
    (a b : Payload) (report : ChainReport)
    → (record_change a b report).affiliation_changes
      ≡ report.affiliation_changes ++ change_between a b
unfolding record_change
record_change-append a b report =
    elim (Bool-cases (affiliation_eq b.issuer_affiliation a.issuer_affiliation)) [
      | inl e ↦ rw e (sym (append-nil _))
      | inr e ↦ rw e
    ]

verify_links-ok :
    (previous : Payload) (rest : List Payload) (report result : ChainReport)
    → verify_links previous rest report ≡ ok result
    → Follows previous rest
      × (result.affiliation_changes ≡ report.affiliation_changes ++ changes_after previous rest)
unfolding verify_links changes_after
verify_links-ok previous [] report result h =
    (tt, ap (λ (r : ChainReport). r.affiliation_changes) (cc) ∙ sym (append-nil _))
verify_links-ok previous (receipt ∷ rest) report result h =
    let step : verify_links receipt rest (record_change previous receipt report) ≡ ok result =
      ground arith in
    let (follows, e) = verify_links-ok receipt rest _ result step in
    (
      (ground arith, is_text→eq _ _ (ground arith), follows),
      e ∙ rw (record_change-append, append_assoc),
    )

verify_links-Follows :
    (previous : Payload) (rest : List Payload) (report : ChainReport)
    → Follows previous rest
    → (result : ChainReport) × (verify_links previous rest report ≡ ok result)
unfolding verify_links
verify_links-Follows previous [] report f = (report, refl)
verify_links-Follows previous (receipt ∷ rest) report (s, p, f) =
    let (result, e) = verify_links-Follows receipt rest (record_change previous receipt report) f in
    (result, ground (arith, e, eq→is_text receipt.chain.prev_hash previous.chain.hash p))

-- `verify_chain` accepts a presentation exactly if it is a chain: it starts at sequence zero with no
-- previous hash, and each receipt has the next sequence number and the hash of the receipt before it.
-- The report then lists exactly the places where the affiliation changes, in order.
pub verify_chain_iff :
    (receipts : List Payload) (report : ChainReport)
    → (verify_chain receipts ≡ ok report)
      ↔ (IsChain receipts × (report.affiliation_changes ≡ changes receipts))
unfolding verify_chain changes
verify_chain_iff [] report = (λ h. cc, λ h. absurd h.0)
verify_chain_iff (head ∷ rest) report = (
  λ h.
      let (f, e) =
        verify_links-ok head rest (record { affiliation_changes = [] }) report (ground arith) in
      ((ground arith, ground arith, f), e),
  λ h.
      let (result, r) =
        verify_links-Follows head rest (record { affiliation_changes = [] }) h.0.2 in
      let (_, e) = verify_links-ok head rest _ result r in
      let same : result ≡ report = λ i. record { affiliation_changes = (e ∙ sym h.1) i } in
      let accepted : verify_chain (head ∷ rest) ≡ ok result = ground arith in accepted ∙ ap ok same,
)
