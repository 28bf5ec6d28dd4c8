-- ===== src/Adapter/Buildium/Push/Guards.antt =====
-- The ways that `push` takes through its guards.
use pask_workspace.Prelude.{
  ◌≡◌, sym, ap₂, ◌⊎◌, inl, inr, arith, true, false, Bool-cases, Result-cases, Option, none, some,
  Text, ascii, bytes_eq, Result, ok, err,
}
use pask_workspace.Wire.Payload.Fields.{Payload}
use pask_workspace.Adapter.Error.{AdapterError, AdapterOutcome}
use pask_workspace.Adapter.Retry.{RetryPolicy}
use pask_workspace.Adapter.Dedup.{Bytes, receipt_digest}
use pask_workspace.Adapter.Buildium.{
  Deps, World, Credentials, adapter_is_write_only, verify_before_push,
}
use pask_workspace.Adapter.Buildium.Push.{prior_or_digest, write_note, push_verified, push}

module _ (deps : Deps) (policy : RetryPolicy) where
  abbrev pub Reply : Type 0
  Reply = Result AdapterError AdapterOutcome × World deps

  abbrev pub already : Bytes → World deps → Reply
  already digest w = (
    ok (
        AdapterOutcome.already_pushed (ascii "buildium")
          (prior_or_digest (deps.dedup.prior_receipt_id w.log digest) digest)),
    w,
  )

  pub already-named :
      (o : Option Text) (digest : Bytes) (w : World deps) (name id : Text)
      → o ≡ some id
      → name ≡ ascii "buildium"
      → ◌≡◌ {A = Reply}
          (ok (AdapterOutcome.already_pushed (ascii "buildium") (prior_or_digest o digest)), w)
          (ok (AdapterOutcome.already_pushed name id), w)
  unfolding prior_or_digest
  already-named none digest w name id e n = cc
  already-named (some x) digest w name id e n =
      let same : x ≡ id = cc in
      ap₂ (λ (a b : Text). let r : Reply = (ok (AdapterOutcome.already_pushed a b), w) in r) (sym n)
        same

  -- The guards on the payload.
  abbrev pub IsOurs : Payload → Type 0
  IsOurs payload =
      (bytes_eq payload.adapter.system (ascii "buildium") ≡ true)
      × (adapter_is_write_only payload ≡ true)

  pub push_verified-already :
      (payload : Payload) (signed_receipt : Bytes) (w : World deps)
      → IsOurs payload
      → deps.dedup.is_pushed w.log (receipt_digest deps.sha256 signed_receipt) ≡ true
      → push_verified deps policy payload signed_receipt w
        ≡ already (receipt_digest deps.sha256 signed_receipt) w
  unfolding push_verified
  push_verified-already payload signed_receipt w (a, b) c = ground arith

  push_verified-new :
      (payload : Payload) (signed_receipt : Bytes) (w : World deps) (c : Credentials)
      → IsOurs payload
      → deps.dedup.is_pushed w.log (receipt_digest deps.sha256 signed_receipt) ≡ false
      → deps.credentials (ascii "buildium") ≡ ok c
      → push_verified deps policy payload signed_receipt w
        ≡ write_note deps policy payload signed_receipt
            (receipt_digest deps.sha256 signed_receipt)
            c
            w
  unfolding push_verified
  push_verified-new payload signed_receipt w c (a, b) n e = ground arith

  push_verified-refused :
      (payload : Payload) (signed_receipt : Bytes) (w : World deps) (x : AdapterError)
      → IsOurs payload
      → deps.dedup.is_pushed w.log (receipt_digest deps.sha256 signed_receipt) ≡ false
      → deps.credentials (ascii "buildium") ≡ err x
      → push_verified deps policy payload signed_receipt w ≡ (err x, w)
  unfolding push_verified
  push_verified-refused payload signed_receipt w x (a, b) n e = ground arith

  -- The three ways through the guards: refused, already done, and written.
  pub push_verified-cases :
      (payload : Payload) (signed_receipt : Bytes) (w : World deps)
      → ((e : AdapterError) × (push_verified deps policy payload signed_receipt w ≡ (err e, w)))
        ⊎ (IsOurs payload
            × (deps.dedup.is_pushed w.log (receipt_digest deps.sha256 signed_receipt) ≡ true))
        ⊎ ((c : Credentials) × IsOurs payload
            × (deps.dedup.is_pushed w.log (receipt_digest deps.sha256 signed_receipt) ≡ false)
            × (push_verified deps policy payload signed_receipt w
                ≡ write_note deps policy payload signed_receipt
                    (receipt_digest deps.sha256 signed_receipt)
                    c
                    w))
  push_verified-cases payload signed_receipt w =
      elim (Bool-cases (bytes_eq payload.adapter.system (ascii "buildium"))) [
        | inr a ↦ inl (
          AdapterError.adapter_mismatch (ascii "buildium") payload.adapter.system,
          unfold push_verified in ground arith,
        )
        | inl a ↦ elim (Bool-cases (adapter_is_write_only payload)) [
          | inr b ↦ inl (
            AdapterError.write_only_required (ascii "<non-write-only>"),
            unfold push_verified in ground arith,
          )
          | inl b ↦
              elim (Bool-cases
                (deps.dedup.is_pushed w.log (receipt_digest deps.sha256 signed_receipt))) [
                  | inl c ↦ inr (inl ((a, b), c))
                  | inr c ↦ elim (Result-cases (deps.credentials (ascii "buildium"))) [
                    | inl (creds, d) ↦ inr (
                        inr (
                          creds,
                          (a, b),
                          c,
                          push_verified-new payload signed_receipt w creds (a, b) c d,
                        ))
                    | inr (x, d) ↦
                        inl (x, push_verified-refused payload signed_receipt w x (a, b) c d)
                  ]
                ]
        ]
      ]

  pub push_ok :
      (signed_receipt : Bytes) (key : deps.Key) (w w' : World deps) (o : AdapterOutcome)
      → push deps policy signed_receipt key w ≡ (ok o, w')
      → (payload : Payload) × (verify_before_push deps signed_receipt key ≡ ok payload)
        × (push_verified deps policy payload signed_receipt w ≡ (ok o, w'))
  unfolding push
  push_ok signed_receipt key w w' o h =
      elim (Result-cases (verify_before_push deps signed_receipt key)) [
        | inl (payload, e) ↦ (payload, e, ground (arith, e))
        | inr (x, e) ↦ absurd (ground (arith, e))
      ]
