-- ===== src/Wire/Statement/Container.antt =====
-- What every report of an outer inspection keeps, whatever the bytes.
use pask_workspace.Prelude.{
  by_test, ap, subst, sym, ℕ, ℤ, ◌≡◌, refl, arith, leb, ◌&&◌, ◌||◌, not, is_empty, is_some, Bool,
  true, false, List, [], Option, none, some, String, Text, length, Result, ok, err,
}
use pask_workspace.Wire.Cbor.{Value, CborLibrary}
use pask_workspace.Wire.Cbor.Labels.{get}
use pask_workspace.Wire.Inspection.{Finding}
use pask_workspace.Wire.Inspection.Claims.{Map}
use pask_workspace.Wire.Inspection.Sound.{authenticated_claims}
use pask_workspace.Wire.Verification.Proofs.{is_passed}
use pask_workspace.Wire.Statement.{
  statement_failed, TransparentStatementPolicy, ReceiptContainerState, OuterStatementReport,
  outer_limits_valid,
}
use pask_workspace.Wire.Statement.Outer.{
  Parts, opened, with_parts, claims_in, byte_elements, string_or_uri, set_outer_claims, with_claims,
  malformed_container, examined, attach, with_container, after_critical, examine, inspect_outer,
  initial_outer, settled, inspect_transparent_statement,
}

-- The receipts are there, within the limit, where the container says so, and nowhere else.
abbrev pub receipts_fit : ReceiptContainerState → List (List ℕ) → ℕ → Bool
receipts_fit ReceiptContainerState.attached receipts max_receipts =
    not (is_empty receipts) && leb (length receipts) max_receipts
receipts_fit _ receipts max_receipts = is_empty receipts

-- The container was found, or found to be absent.
abbrev pub is_examined : ReceiptContainerState → Bool
is_examined ReceiptContainerState.attached = true
is_examined ReceiptContainerState.no_receipts = true
is_examined _ = false

abbrev pub has_parts : OuterStatementReport → Bool
has_parts r = is_some r.protected_bytes && is_some r.payload_bytes && is_some r.signature_bytes

pub record IsOuter (policy : TransparentStatementPolicy) (r : OuterStatementReport) : Type 0 where
  pub unauthenticated : authenticated_claims r.claims ≡ false
  pub receipts : receipts_fit r.container r.receipts policy.max_receipts ≡ true
  pub complete :
      (not (is_passed r.structure.status) || (has_parts r && is_examined r.container)) ≡ true

-- A report before its container is examined.
record IsReady (policy : TransparentStatementPolicy) (r : OuterStatementReport) : Type 0 where
  same : r.policy ≡ policy
  unauthenticated : authenticated_claims r.claims ≡ false
  container : r.container ≡ ReceiptContainerState.not_examined
  receipts : r.receipts ≡ []

module _ (cbor : CborLibrary) (uri : Text → Bool) (policy : TransparentStatementPolicy) where
  failed-IsOuter :
      (code : String) (r : OuterStatementReport)
      → IsReady policy r
      → IsOuter policy (settled cbor uri (err code, r))
  failed-IsOuter code r h = record {
    unauthenticated = h.unauthenticated;
    receipts =
        subst (λ c. receipts_fit c r.receipts policy.max_receipts ≡ true) (sym h.container)
          (ap is_empty h.receipts);
    complete = refl;
  }

  malformed-IsOuter :
      (r : OuterStatementReport)
      → IsReady policy r
      → IsOuter policy (settled cbor uri (malformed_container cbor uri r))
  malformed-IsOuter r h = record {
    unauthenticated = h.unauthenticated;
    receipts = ap is_empty h.receipts;
    complete = refl;
  }

  attach-IsOuter :
      (o : Option (List (List ℕ))) (r : OuterStatementReport)
      → IsReady policy r
      → has_parts r ≡ true
      → IsOuter policy (settled cbor uri (attach cbor uri o r))
  attach-IsOuter none r h p = malformed-IsOuter r h
  attach-IsOuter (some receipts) r h p =
      let good : OuterStatementReport = record r {
        container = ReceiptContainerState.attached;
        receipts = receipts;
      } in
      by_test (λ x. IsOuter policy (settled cbor uri x))
        (not (is_empty receipts) && leb (length receipts) r.policy.max_receipts)
        (examined cbor uri good) (malformed_container cbor uri r)
        (λ fits. record {
          unauthenticated = h.unauthenticated;
          receipts =
              subst (λ q. (not (is_empty receipts) && leb (length receipts) q.max_receipts) ≡ true)
                h.same fits;
          complete = ground arith;
        })
        (λ fits. malformed-IsOuter r h)

  with_container-IsOuter :
      (o : Option Value) (r : OuterStatementReport)
      → IsReady policy r
      → has_parts r ≡ true
      → IsOuter policy (settled cbor uri (with_container cbor uri o r))
  unfolding with_container
  with_container-IsOuter none r h p = record {
    unauthenticated = h.unauthenticated;
    receipts = ap is_empty h.receipts;
    complete = ground arith;
  }
  with_container-IsOuter (some (Value.array vs)) r h p = attach-IsOuter (byte_elements vs) r h p
  with_container-IsOuter (some (Value.integer n)) r h p = malformed-IsOuter r h
  with_container-IsOuter (some (Value.bytes b)) r h p = malformed-IsOuter r h
  with_container-IsOuter (some (Value.float n)) r h p = malformed-IsOuter r h
  with_container-IsOuter (some (Value.text t)) r h p = malformed-IsOuter r h
  with_container-IsOuter (some (Value.bool b)) r h p = malformed-IsOuter r h
  with_container-IsOuter (some Value.null) r h p = malformed-IsOuter r h
  with_container-IsOuter (some (Value.tag t v)) r h p = malformed-IsOuter r h
  with_container-IsOuter (some (Value.map es)) r h p = malformed-IsOuter r h

  -- Ready, with its parts.
  abbrev Known : OuterStatementReport → Type 0
  Known r = IsReady policy r × (has_parts r ≡ true)

  set_outer_claims-Known :
      (o : Option (Text × Text)) (r : OuterStatementReport)
      → Known r
      → Known (set_outer_claims cbor uri o r)
  set_outer_claims-Known none r h = h
  set_outer_claims-Known (some (iss, sub)) r (h, p) =
      by_test Known (string_or_uri cbor uri iss && string_or_uri cbor uri sub) _ r
        (λ fits. (
          record {
            same = h.same;
            unauthenticated = refl;
            container = h.container;
            receipts = h.receipts;
          },
          p,
        ))
        (λ fits. (h, p))

  after_critical-IsOuter :
      (p : Map) (c : Result String (Unit {0}) × Finding) (r : OuterStatementReport)
      → Known r
      → IsOuter policy (settled cbor uri (after_critical cbor uri p c r))
  unfolding after_critical with_claims
  after_critical-IsOuter p (err code, support) r (h, k) =
      failed-IsOuter code (record r { support = support })
        (record {
          same = h.same;
          unauthenticated = h.unauthenticated;
          container = h.container;
          receipts = h.receipts;
        })
  after_critical-IsOuter p (ok u, support) r (h, k) =
      let (g, parts) =
        set_outer_claims-Known (claims_in (get p (ℤ.pos 15)))
          (record r {
            support = support;
            required_claims = statement_failed "protected_text_claims_required";
          })
          (
            record {
              same = h.same;
              unauthenticated = h.unauthenticated;
              container = h.container;
              receipts = h.receipts;
            },
            k,
          ) in
      with_container-IsOuter _ _
        (record {
          same = g.same;
          unauthenticated = g.unauthenticated;
          container = g.container;
          receipts = g.receipts;
        })
        parts

  examine-IsOuter :
      (o : Result String Parts) (r : OuterStatementReport)
      → IsReady policy r
      → IsOuter policy (settled cbor uri (examine cbor uri o r))
  unfolding examine with_parts
  examine-IsOuter (err code) r h = failed-IsOuter code r h
  examine-IsOuter (ok parts) r h = after_critical-IsOuter parts.protected _ _ (
    record {
      same = h.same;
      unauthenticated = h.unauthenticated;
      container = h.container;
      receipts = h.receipts;
    },
    refl,
  )

  -- Whatever the bytes, an outer inspection authenticates no claim, has receipts exactly where its
  -- container is attached, one at least and no more than the policy allows, and passes its
  -- structure only with the protected bytes, the payload and the signature read and the container
  -- found or found absent.
  pub inspect_transparent_statement-IsOuter :
      (bytes : List ℕ) → IsOuter policy (inspect_transparent_statement cbor uri bytes policy)
  unfolding inspect_transparent_statement inspect_outer initial_outer
  inspect_transparent_statement-IsOuter bytes =
      let start = initial_outer cbor uri bytes policy in
      let bad : OuterStatementReport = record start {
        selected_policy = statement_failed "invalid_outer_limits";
      } in
      by_test (λ x. IsOuter policy (settled cbor uri x)) (not (outer_limits_valid policy))
        (err "outer_policy_limit", bad) (examine cbor uri (opened cbor policy bytes) start)
        (λ e.
          failed-IsOuter "outer_policy_limit" bad
            (record { same = refl; unauthenticated = refl; container = refl; receipts = refl }))
        (λ e.
          examine-IsOuter (opened cbor policy bytes) start
            (record { same = refl; unauthenticated = refl; container = refl; receipts = refl }))
