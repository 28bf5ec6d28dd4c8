-- ===== src/Wire/Statement/Mapped.antt =====
-- What a subject binding that passes says of the claims, the site and the rows of the mapping.
use pask_workspace.Prelude.{
  ◌≡◌, refl, arith, ltb, ◌||◌, not, is_empty, true, false, List, [], ◌∷◌, some, Text, length, All,
  bytes_eq, ◌&&◌, Option, none, bytes_eq→eq, Bool-cases, inl, inr, ◌∙◌,
}
use pask_workspace.Wire.Inspection.Claims.{Claims}
use pask_workspace.Wire.Verification.{TrustInputOrigin, BindingProvenance}
use pask_workspace.Wire.Verification.Proofs.{is_passed}
use pask_workspace.Wire.Statement.Issuer.{authenticated_provenance, is_local}
use pask_workspace.Wire.Statement.Subject.{
  is_no_subject, SubjectMapping, SubjectPolicy, rows_fit, rows_from, maps_to, differs, by_rows,
  by_mapping, by_policy, subject_finding,
}

-- The row's target is this subject at this site.
abbrev pub Targets : Text → Text → SubjectMapping → Type 0
Targets subject site x = (x.statement_subject ≡ subject) × (x.site_id ≡ site)

maps_to-Targets :
    (subject site : Text) (x : SubjectMapping)
    → maps_to subject site x ≡ true
    → Targets subject site x
maps_to-Targets subject site x h = (
  bytes_eq→eq x.statement_subject subject (ground arith),
  bytes_eq→eq x.site_id site (ground arith),
)

differs-All :
    (subject site : Text) (first : SubjectMapping) (rows : List SubjectMapping)
    → Targets subject site first
    → differs first rows ≡ false
    → All (Targets subject site) rows
differs-All subject site first [] t h = tt
differs-All subject site first (x ∷ rows) t h =
    let same = maps_to-Targets first.statement_subject first.site_id x (ground arith) in
    ((same.0 ∙ t.0, same.1 ∙ t.1), differs-All subject site first rows t (ground arith))

by_rows-All :
    (subject site : Text) (rows : List SubjectMapping)
    → is_passed (by_rows subject site rows).status ≡ true
    → (is_empty rows ≡ false) × All (Targets subject site) rows
unfolding by_rows
by_rows-All subject site [] h = absurd (ground arith)
by_rows-All subject site (first ∷ rows) h = elim (Bool-cases (differs first rows)) [
  | inl t ↦ absurd (ground arith)
  | inr same ↦ elim (Bool-cases (maps_to subject site first)) [
    | inr f ↦ absurd (ground arith)
    | inl t ↦
        let target = maps_to-Targets subject site first t in
        (refl, (target, differs-All subject site first rows target same))
  ]
]

-- An authenticated mapping binds a receipt to a statement only where the mapping is authenticated
-- from the outside, some row is for the receipt's service and subject, and every such row, not
-- only the first, has the statement's subject and the site of its payload as its target.
pub subject_finding-mapped :
    (rows : List SubjectMapping) (provenance : BindingProvenance) (origin : TrustInputOrigin)
    (statement receipt : Claims) (site : Text)
    → is_passed
        (subject_finding
          (SubjectPolicy.authenticated_mapping_v1 rows provenance origin)
          (some statement)
          (some receipt)
          (some site)).status
      ≡ true
    → (authenticated_provenance provenance ≡ true)
      × (is_local origin ≡ false)
      × (is_empty (rows_from receipt.issuer receipt.subject rows) ≡ false)
      × All (Targets statement.subject site) (rows_from receipt.issuer receipt.subject rows)
unfolding subject_finding by_policy by_mapping
subject_finding-mapped rows provenance origin statement receipt site h =
    elim (Bool-cases (ltb 64 (length rows) || not (rows_fit rows))) [
      | inl t ↦ absurd (ground arith)
      | inr f ↦
          elim (Bool-cases
            (is_empty rows || not (authenticated_provenance provenance) || is_local origin)) [
              | inl t ↦ absurd (ground arith)
              | inr g ↦
                  let (some_row, all) =
                    by_rows-All statement.subject site
                      (rows_from receipt.issuer receipt.subject rows) (ground arith) in
                  (ground arith, ground arith, some_row, all)
            ]
    ]

-- What a subject policy asks of the statement's claims, a receipt's claims and the site.
abbrev pub Corresponds : SubjectPolicy → Claims → Claims → Text → Type 0
Corresponds SubjectPolicy.no_subject statement receipt site = ⊥
Corresponds SubjectPolicy.shared_json_site_v1 statement receipt site =
    (receipt.subject ≡ statement.subject) × (statement.subject ≡ site)
Corresponds (SubjectPolicy.authenticated_mapping_v1 rows provenance origin) statement receipt site =
    (authenticated_provenance provenance ≡ true)
    × (is_local origin ≡ false)
    × (is_empty (rows_from receipt.issuer receipt.subject rows) ≡ false)
    × All (Targets statement.subject site) (rows_from receipt.issuer receipt.subject rows)

-- All three are there, and correspond.
abbrev pub IsBoundSubject : SubjectPolicy → Option Claims → Option Claims → Option Text → Type 0
IsBoundSubject policy (some statement) (some receipt) (some site) =
    Corresponds policy statement receipt site
IsBoundSubject policy _ _ _ = ⊥

subject_finding-shared :
    (statement receipt : Claims) (site : Text)
    → is_passed
        (subject_finding SubjectPolicy.shared_json_site_v1
          (some statement)
          (some receipt)
          (some site)).status
      ≡ true
    → Corresponds SubjectPolicy.shared_json_site_v1 statement receipt site
unfolding subject_finding by_policy
subject_finding-shared statement receipt site h =
    elim (Bool-cases
      (bytes_eq receipt.subject statement.subject && bytes_eq statement.subject site)) [
        | inr f ↦ absurd (ground (arith, f))
        | inl t ↦ (
          bytes_eq→eq receipt.subject statement.subject (ground (arith, t)),
          bytes_eq→eq statement.subject site (ground (arith, t)),
        )
      ]

unestablished :
    (policy : SubjectPolicy) (statement receipt : Option Claims) (site : Option Text)
    → is_no_subject policy ≡ true
    → is_passed (subject_finding policy statement receipt site).status ≡ false
unfolding subject_finding
unestablished policy statement receipt site h = ground (arith, h)

subject_finding-typed :
    (policy : SubjectPolicy) (statement receipt : Claims) (site : Text)
    → is_passed (subject_finding policy (some statement) (some receipt) (some site)).status ≡ true
    → Corresponds policy statement receipt site
subject_finding-typed SubjectPolicy.no_subject statement receipt site h =
    cc (unestablished SubjectPolicy.no_subject (some statement) (some receipt) (some site) refl)
subject_finding-typed SubjectPolicy.shared_json_site_v1 statement receipt site h =
    subject_finding-shared statement receipt site h
subject_finding-typed (SubjectPolicy.authenticated_mapping_v1 rows provenance origin) statement
      receipt site h =
    subject_finding-mapped rows provenance origin statement receipt site h

pub subject_finding-IsBoundSubject :
    (policy : SubjectPolicy) (statement receipt : Option Claims) (site : Option Text)
    → is_passed (subject_finding policy statement receipt site).status ≡ true
    → IsBoundSubject policy statement receipt site
unfolding subject_finding
subject_finding-IsBoundSubject policy none receipt site h = absurd (ground arith)
subject_finding-IsBoundSubject policy (some s) none site h = absurd (ground arith)
subject_finding-IsBoundSubject policy (some s) (some r) none h = absurd (ground arith)
subject_finding-IsBoundSubject policy (some s) (some r) (some t) h =
    subject_finding-typed policy s r t h
