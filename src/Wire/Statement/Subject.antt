-- ===== src/Wire/Statement/Subject.antt =====
-- crates/pask-wire/src/transparent_statement.rs: `subject_finding`.
use pask_workspace.Prelude.{
  ltb, ◌&&◌, ◌||◌, not, if◌then◌else◌, is_empty, Bool, true, false, List, [], ◌∷◌, Option, some,
  Text, length, bytes_eq,
}
use pask_workspace.Wire.Inspection.{Finding}
use pask_workspace.Wire.Inspection.Claims.{Claims}
use pask_workspace.Wire.Verification.{TrustInputOrigin, BindingProvenance}
use pask_workspace.Wire.Statement.{statement_passed, statement_failed, bounded_text}
use pask_workspace.Wire.Statement.Issuer.{statement_unset, authenticated_provenance, is_local}

-- SubjectMapping
pub record SubjectMapping : Type 0 where
  pub mapped_service : Text
  pub receipt_subject : Text
  pub statement_subject : Text
  pub site_id : Text

-- SubjectPolicy
pub data SubjectPolicy : Type 0 where
  no_subject : SubjectPolicy
  shared_json_site_v1 : SubjectPolicy
  authenticated_mapping_v1 :
      List SubjectMapping → BindingProvenance → TrustInputOrigin → SubjectPolicy

abbrev pub row_fits : SubjectMapping → Bool
row_fits x =
    bounded_text x.mapped_service
    && bounded_text x.receipt_subject
    && bounded_text x.statement_subject
    && bounded_text x.site_id

abbrev pub rows_fit : List SubjectMapping → Bool
rows_fit [] = true
rows_fit (x ∷ rows) = row_fits x && rows_fit rows

abbrev pub maps_from : Text → Text → SubjectMapping → Bool
maps_from service subject x =
    bytes_eq x.mapped_service service && bytes_eq x.receipt_subject subject

-- The rows of one service and subject.
unfoldable pub rows_from : Text → Text → List SubjectMapping → List SubjectMapping
rows_from service subject [] = []
rows_from service subject (x ∷ rows) =
    let rest = rows_from service subject rows in
    if maps_from service subject x then x ∷ rest else rest

abbrev pub maps_to : Text → Text → SubjectMapping → Bool
maps_to subject site x = bytes_eq x.statement_subject subject && bytes_eq x.site_id site

-- Another target than that of the first row.
abbrev pub differs : SubjectMapping → List SubjectMapping → Bool
differs first [] = false
differs first (x ∷ rows) =
    not (maps_to first.statement_subject first.site_id x) || differs first rows

-- From the matching rows on.
unfoldable pub by_rows : Text → Text → List SubjectMapping → Finding
by_rows subject site [] = statement_unset "authenticated_mapping_missing"
by_rows subject site (first ∷ rows) =
    if differs first rows
    then statement_failed "ambiguous_subject_mapping"
    else if maps_to subject site first
    then statement_passed "authenticated_mapping_v1_exact_correspondence"
    else statement_failed "mapping_contradiction"

unfoldable pub by_mapping :
    List SubjectMapping → BindingProvenance → TrustInputOrigin → Claims → Claims → Text → Finding
by_mapping rows provenance origin statement receipt site =
    if ltb 64 (length rows) || not (rows_fit rows)
    then statement_failed "subject_mapping_limit"
    else if is_empty rows || not (authenticated_provenance provenance) || is_local origin
    then statement_unset "authenticated_mapping_missing"
    else by_rows statement.subject site (rows_from receipt.issuer receipt.subject rows)

-- The match on the policy, with the subjects and the site known.
unfoldable pub by_policy : SubjectPolicy → Claims → Claims → Text → Finding
by_policy SubjectPolicy.no_subject statement receipt site =
    statement_unset "subject_convention_absent"
by_policy SubjectPolicy.shared_json_site_v1 statement receipt site =
    if bytes_eq receipt.subject statement.subject && bytes_eq statement.subject site
    then statement_passed "shared_json_site_v1_exact_correspondence"
    else statement_failed "shared_json_site_v1_contradiction"
by_policy (SubjectPolicy.authenticated_mapping_v1 rows provenance origin) statement receipt site =
    by_mapping rows provenance origin statement receipt site

abbrev pub is_no_subject : SubjectPolicy → Bool
is_no_subject SubjectPolicy.no_subject = true
is_no_subject _ = false

abbrev pub typed_subject : SubjectPolicy → Option Claims → Option Claims → Option Text → Finding
typed_subject policy (some statement) (some receipt) (some site) =
    by_policy policy statement receipt site
typed_subject policy _ _ _ = statement_unset "typed_subject_context_missing"

unfoldable pub subject_finding :
    SubjectPolicy → Option Claims → Option Claims → Option Text → Finding
subject_finding policy statement receipt site =
    if is_no_subject policy
    then statement_unset "subject_convention_absent"
    else typed_subject policy statement receipt site
