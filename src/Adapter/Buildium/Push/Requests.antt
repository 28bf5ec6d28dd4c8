-- ===== src/Adapter/Buildium/Push/Requests.antt =====
-- What `push` sends, and what it takes for a success.
use pask_workspace.Prelude.{
  ℕ, ◌≡◌, sym, ap, subst, ◌≢◌, ◌∙◌, ◌⊎◌, inl, inr, arith, false, Result-cases, Text, Result, ok,
  err,
}
use pask_workspace.Wire.Payload.Fields.{Payload}
use pask_workspace.Adapter.Error.{AdapterError, AdapterOutcome, transport, pushed}
use pask_workspace.Adapter.Retry.{RetryPolicy}
use pask_workspace.Adapter.Dedup.{Bytes, receipt_digest}
use pask_workspace.Adapter.Buildium.{Deps, World, Credentials, verify_before_push, build_note}
use pask_workspace.Adapter.Buildium.Push.{finish, post_with_retry, write_note, push_verified, push}
use pask_workspace.Adapter.Buildium.Push.Guards.{
  Reply, IsOurs, push_verified-already, push_verified-cases,
}
use pask_workspace.Adapter.Buildium.Push.Sent.{Sent, Sent-none, IsAccepted, post_with_retry-lem}

module _ (deps : Deps) (policy : RetryPolicy) where
  -- What is shown of a whole reply that started in `w`.
  abbrev pub Traced : Text → World deps → Reply deps policy → Type 0
  Traced property_id w (reply, w') =
      Sent deps policy property_id policy.max_attempts w w'
      × ((name id : Text) (at : ℕ)
          → reply ≡ ok (pushed name id at)
          → IsAccepted deps policy property_id w w' id)

  finish-Traced :
      (p : Text) (digest : Bytes) (r : Result AdapterError Text) (w w' : World deps)
      → Sent deps policy p policy.max_attempts w w'
      → ((id : Text) → r ≡ ok id → IsAccepted deps policy p w w' id)
      → Traced p w (finish deps policy digest r w')
  unfolding finish
  finish-Traced p digest (ok id) w w' h a = (
    record { requests = h.requests; sent = h.sent; net = h.net; posts = h.posts; count = h.count },
    λ name i at e.
        let accepted = a i (cc) in
        record {
          before = accepted.before;
          last = accepted.last;
          sent = accepted.sent;
          post = accepted.post;
          created = accepted.created;
          net = accepted.net;
        },
  )
  finish-Traced p digest (err (transport message)) w w' h a = (h, λ name i at e. cc)
  finish-Traced p digest (err e) w w' h a = (h, λ name i at e'. cc)

  write_note-Traced :
      (payload : Payload) (signed_receipt digest : Bytes) (c : Credentials) (w : World deps)
      → Traced payload.adapter.endpoint w (write_note deps policy payload signed_receipt digest c w)
  unfolding write_note build_note
  write_note-Traced payload signed_receipt digest c w =
      let note = (build_note deps payload signed_receipt).1 in
      elim (Result-cases (deps.to_value note)) [
        | inl (body, e) ↦
            let (result, w') = post_with_retry deps policy payload.adapter.endpoint c body w in
            let (sent, accepted) =
              post_with_retry-lem deps policy payload.adapter.endpoint c body w in
            let step : write_note deps policy payload signed_receipt digest c w
                ≡ finish deps policy digest result w' =
              ground (arith, e) in
            subst (Traced payload.adapter.endpoint w) (sym step)
              (finish-Traced payload.adapter.endpoint digest result w w' sent accepted)
        | inr (m, e) ↦
            let step : write_note deps policy payload signed_receipt digest c w
                ≡ (err (AdapterError.serialization m), w) =
              ground (arith, e) in
            subst (Traced payload.adapter.endpoint w) (sym step)
              (Sent-none deps policy payload.adapter.endpoint _ w, λ n i at x. cc)
      ]

  unchanged :
      (signed_receipt : Bytes) (key : deps.Key) (w : World deps)
      (r : Result AdapterError AdapterOutcome)
      → push deps policy signed_receipt key w ≡ (r, w)
      → ((name id : Text) (at : ℕ) → r ≢ ok (pushed name id at))
      → ((push deps policy signed_receipt key w).1 ≡ w)
        × ((name id : Text) (at : ℕ)
            → (push deps policy signed_receipt key w).0 ≢ ok (pushed name id at))
  unchanged signed_receipt key w r e h = (
    ap (λ (x : Reply deps policy). x.1) e,
    λ name id at x. h name id at (sym (ap (λ (x : Reply deps policy). x.0) e) ∙ x),
  )

  -- Either `push` leaves the world as it was and has pushed nothing, or the receipt verified, is for
  -- Buildium in write-only mode and was not in the log. Then all that it sent is at most
  -- `max_attempts` POSTs to the note URL of the receipt's endpoint, answered in turn by the network;
  -- and if it reports a push, the last request that it sent was such a POST, and its answer, from the
  -- network as the requests before it had left it, had status 201 and the identifier that is reported.
  pub push-Traced :
      (signed_receipt : Bytes) (key : deps.Key) (w : World deps)
      → (((push deps policy signed_receipt key w).1 ≡ w)
          × ((name id : Text) (at : ℕ)
              → (push deps policy signed_receipt key w).0 ≢ ok (pushed name id at)))
        ⊎ ((payload : Payload) × (verify_before_push deps signed_receipt key ≡ ok payload)
            × IsOurs deps policy payload
            × (deps.dedup.is_pushed w.log (receipt_digest deps.sha256 signed_receipt) ≡ false)
            × Traced payload.adapter.endpoint w (push deps policy signed_receipt key w))
  unfolding push
  push-Traced signed_receipt key w =
      let digest = receipt_digest deps.sha256 signed_receipt in
      elim (Result-cases (verify_before_push deps signed_receipt key)) [
        | inr (x, e) ↦
            let step : push deps policy signed_receipt key w ≡ (err x, w) = ground (arith, e) in
            inl (unchanged signed_receipt key w _ step (λ n i at y. cc))
        | inl (payload, e) ↦
            let step : push deps policy signed_receipt key w
                ≡ push_verified deps policy payload signed_receipt w =
              ground (arith, e) in
            elim (push_verified-cases deps policy payload signed_receipt w) [
              | inl (x, failed) ↦
                  inl (unchanged signed_receipt key w _ (step ∙ failed) (λ n i at y. cc))
              | inr (inl (ours, old)) ↦ inl (
                  unchanged signed_receipt key w _
                    (step ∙ push_verified-already deps policy payload signed_receipt w ours old)
                    (λ n i at y. cc))
              | inr (inr (c, ours, fresh, wrote)) ↦ inr (
                payload,
                e,
                ours,
                fresh,
                subst (Traced payload.adapter.endpoint w) (sym (step ∙ wrote))
                    (write_note-Traced payload signed_receipt digest c w),
              )
            ]
      ]
