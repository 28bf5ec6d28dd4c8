-- ===== src/Adapter/Buildium/Push/Once.antt =====
-- A receipt is written once: what `push` leaves in the deduplication log.
use pask_workspace.Prelude.{
  ℕ, dec_lt, ◌≡◌, refl, sym, ap, subst, ◌∙◌, inl, inr, arith, true, Result-cases, some, Text, ascii,
  bytes_eq_refl, Result, ok, err,
}
use pask_workspace.Wire.Json.{Json}
use pask_workspace.Wire.Payload.Fields.{Payload}
use pask_workspace.Adapter.Error.{AdapterError, AdapterOutcome, transport}
use pask_workspace.Adapter.Retry.{RetryPolicy}
use pask_workspace.Adapter.Retry.Attempts.{run_with_retry-zero}
use pask_workspace.Adapter.Retry.Invariant.{run_with_retry-LastCall}
use pask_workspace.Adapter.Dedup.{Bytes, receipt_digest}
use pask_workspace.Adapter.Buildium.{
  Deps, World, Credentials, verify_before_push, build_note, post_once, transmit,
}
use pask_workspace.Adapter.Buildium.Push.{
  sleep, finish, post_with_retry, prior_or_digest, write_note, push_verified, push,
}
use pask_workspace.Adapter.Buildium.Push.Guards.{
  Reply, IsOurs, already-named, push_verified-already, push_verified-cases, push_ok,
}

module _ (deps : Deps) (policy : RetryPolicy) where
  -- What each outcome says of the log: a push recorded its digest, a push that was already done found
  -- the digest and changed nothing at all, and a failure left the log as it was.
  abbrev pub Explained : Bytes → World deps → Reply deps policy → Type 0
  Explained digest w (ok (AdapterOutcome.pushed name id at), w') =
      (name ≡ ascii "buildium") × (w'.log ≡ deps.dedup.record_pushed w.log digest id)
  Explained digest w (ok (AdapterOutcome.already_pushed name id), w') =
      (name ≡ ascii "buildium")
      × (w' ≡ w)
      × (deps.dedup.is_pushed w.log digest ≡ true)
      × (id ≡ prior_or_digest (deps.dedup.prior_receipt_id w.log digest) digest)
  Explained digest w (err e, w') = w'.log ≡ w.log

  finish-Explained :
      (digest : Bytes) (r : Result AdapterError Text) (w w' : World deps)
      → w'.log ≡ w.log
      → Explained digest w (finish deps policy digest r w')
  unfolding finish
  finish-Explained digest (ok id) w w' h = (refl, rw h)
  finish-Explained digest (err (transport message)) w w' h = h
  finish-Explained digest (err e) w w' h = h

  post_once-log :
      (property_id : Text) (c : Credentials) (body : Json) (w : World deps)
      → (post_once deps property_id c body w).1.log ≡ w.log
  unfolding post_once transmit
  post_once-log property_id c body w = ground arith

  post_with_retry-log :
      (property_id : Text) (c : Credentials) (body : Json) (w : World deps)
      → (post_with_retry deps policy property_id c body w).1.log ≡ w.log
  unfolding post_with_retry sleep
  post_with_retry-log property_id c body w = elim (dec_lt 0 policy.max_attempts) [
    | no none_left ↦
        let stopped =
          run_with_retry-zero policy (λ attempt. post_once deps property_id c body)
            (sleep deps policy) w (omega arith) in
        ap (λ (r : Result AdapterError Text × World deps). r.1.log) stopped
    | yes some_left ↦
        let last =
          run_with_retry-LastCall policy (λ attempt. post_once deps property_id c body)
            (sleep deps policy) (λ j s. s.log ≡ w.log)
            (λ j d s h. post_once-log property_id c body s ∙ h) w some_left refl in
        let e : last.before.log ≡ w.log = last.holds in
        rw (← last.final) (post_once-log property_id c body last.before ∙ e)
  ]

  write_note-Explained :
      (payload : Payload) (signed_receipt digest : Bytes) (c : Credentials) (w : World deps)
      → Explained digest w (write_note deps policy payload signed_receipt digest c w)
  unfolding write_note
  write_note-Explained payload signed_receipt digest c w =
      let (property_id, note) = build_note deps payload signed_receipt in
      elim (Result-cases (deps.to_value note)) [
        | inl (body, e) ↦
            let (result, w') = post_with_retry deps policy property_id c body w in
            let step : write_note deps policy payload signed_receipt digest c w
                ≡ finish deps policy digest result w' =
              ground (arith, e) in
            subst (Explained digest w) (sym step)
              (finish-Explained digest result w w' (post_with_retry-log property_id c body w))
        | inr (m, e) ↦
            let step : write_note deps policy payload signed_receipt digest c w
                ≡ (err (AdapterError.serialization m), w) =
              ground (arith, e) in
            subst (Explained digest w) (sym step) refl
      ]

  push_verified-Explained :
      (payload : Payload) (signed_receipt : Bytes) (w : World deps)
      → Explained
          (receipt_digest deps.sha256 signed_receipt)
          w
          (push_verified deps policy payload signed_receipt w)
  push_verified-Explained payload signed_receipt w =
      let digest = receipt_digest deps.sha256 signed_receipt in
      elim (push_verified-cases deps policy payload signed_receipt w) [
        | inl (e, failed) ↦ subst (Explained digest w) (sym failed) refl
        | inr (inl (ours, old)) ↦
            subst (Explained digest w)
              (sym (push_verified-already deps policy payload signed_receipt w ours old))
              (refl, refl, old, refl)
        | inr (inr (c, _, _, wrote)) ↦
            subst (Explained digest w) (sym wrote)
              (write_note-Explained payload signed_receipt digest c w)
      ]

  -- Every reply of `push` is explained by the log: a push has recorded the receipt's digest with the
  -- returned identifier, a push that was already done found the digest and changed nothing, and a
  -- failure has left the log unchanged, whatever the remote side did.
  pub push-Explained :
      (signed_receipt : Bytes) (key : deps.Key) (w : World deps)
      → Explained
          (receipt_digest deps.sha256 signed_receipt)
          w
          (push deps policy signed_receipt key w)
  unfolding push
  push-Explained signed_receipt key w =
      let digest = receipt_digest deps.sha256 signed_receipt in
      elim (Result-cases (verify_before_push deps signed_receipt key)) [
        | inl (payload, e) ↦
            let step : push deps policy signed_receipt key w
                ≡ push_verified deps policy payload signed_receipt w =
              ground (arith, e) in
            subst (Explained digest w) (sym step) (push_verified-Explained payload signed_receipt w)
        | inr (x, e) ↦
            let step : push deps policy signed_receipt key w ≡ (err x, w) = ground (arith, e) in
            subst (Explained digest w) (sym step) refl
      ]

  -- After a successful push, pushing the same receipt again writes nothing: it sends no request,
  -- changes nothing in the world, and returns the identifier of the first push.
  pub push-push :
      (signed_receipt : Bytes) (key : deps.Key) (w w' : World deps) (name id : Text) (at : ℕ)
      → push deps policy signed_receipt key w ≡ (ok (AdapterOutcome.pushed name id at), w')
      → push deps policy signed_receipt key w' ≡ (ok (AdapterOutcome.already_pushed name id), w')
  unfolding push
  push-push signed_receipt key w w' name id at h =
      let digest = receipt_digest deps.sha256 signed_receipt in
      let (payload, verified, run) = push_ok deps policy signed_receipt key w w' _ h in
      let (n, log) = subst (Explained digest w) h (push-Explained signed_receipt key w) in
      let ours : IsOurs deps policy payload =
        elim (push_verified-cases deps policy payload signed_receipt w) [
          | inl (e, failed) ↦ absurd (cc)
          | inr (inl (yours, old)) ↦ yours
          | inr (inr (c, yours, _, wrote)) ↦ yours
        ] in
      let now_pushed : deps.dedup.is_pushed w'.log digest ≡ true =
        ground
          (arith, log, deps.dedup.is_pushed_record w.log digest digest id, bytes_eq_refl digest) in
      let now_found : deps.dedup.prior_receipt_id w'.log digest ≡ some id =
        ground (arith, log, deps.dedup.prior_record w.log digest digest id, bytes_eq_refl digest) in
      let again = push_verified-already deps policy payload signed_receipt w' ours now_pushed in
      let step : push deps policy signed_receipt key w'
          ≡ push_verified deps policy payload signed_receipt w' =
        ground (arith, verified) in
      step ∙ again ∙ already-named deps policy _ digest w' name id now_found n
