-- ===== src/Adapter/Buildium/Push.antt =====
-- crates/pask-adapter/src/buildium/mod.rs: `push`.
pub mod Guards
pub mod Once
pub mod Requests
pub mod Sent
mod Tests
use pask_workspace.Prelude.{
  ℕ, List, [], ◌∷◌, ◌++◌, Bool, true, false, not, Option, none, some, if◌then◌else◌, Text, ascii,
  bytes_eq, Result, ok, err,
}
use pask_workspace.Wire.Json.{Json}
use pask_workspace.Wire.Payload.Fields.{Payload}
use pask_workspace.Adapter.Error.{AdapterError, AdapterOutcome}
use pask_workspace.Adapter.Retry.{RetryPolicy, run_with_retry_and_sleep}
use pask_workspace.Adapter.Dedup.{Bytes, receipt_digest, lower_hex}
use pask_workspace.Adapter.Buildium.{
  Deps, World, Credentials, adapter_is_write_only, verify_before_push, build_note, post_once,
}

-- `prior_receipt_id(&digest).unwrap_or_else(…)`
pub prior_or_digest : Option Text → Bytes → Text
prior_or_digest (some id) digest = id
prior_or_digest none digest = ascii "dedup-" ++ lower_hex digest

module _ (deps : Deps) (policy : RetryPolicy) where
  pub sleep : ℕ → World deps → World deps
  sleep delay w = record w { slept = w.slept ++ (delay ∷ []) }

  -- From the match on the result of the retries on.
  pub finish :
      Bytes
      → Result AdapterError Text
      → World deps
      → Result AdapterError AdapterOutcome × World deps
  finish digest (err (AdapterError.transport message)) w =
      (err (AdapterError.dead_letter message), w)
  finish digest (err e) w = (err e, w)
  finish digest (ok id) w = (
    ok (AdapterOutcome.pushed (ascii "buildium") id (deps.now w.net)),
    record w { log = deps.dedup.record_pushed w.log digest id },
  )

  -- `run_with_retry_and_sleep` with one POST as its operation.
  pub post_with_retry :
      Text → Credentials → Json → World deps → Result AdapterError Text × World deps
  post_with_retry property_id credentials body =
      run_with_retry_and_sleep policy (λ attempt. post_once deps property_id credentials body) sleep

  pub write_note :
      Payload
      → Bytes
      → Bytes
      → Credentials
      → World deps
      → Result AdapterError AdapterOutcome × World deps
  write_note payload signed_receipt digest credentials w =
      let (property_id, note) = build_note deps payload signed_receipt in
      elim (deps.to_value note) [
        | err message ↦ (err (AdapterError.serialization message), w)
        | ok body ↦
            let (result, w') = post_with_retry property_id credentials body w in
            finish digest result w'
      ]

  pub push_verified : Payload → Bytes → World deps → Result AdapterError AdapterOutcome × World deps
  push_verified payload signed_receipt w =
      let digest = receipt_digest deps.sha256 signed_receipt in
      if not (bytes_eq payload.adapter.system (ascii "buildium"))
      then (err (AdapterError.adapter_mismatch (ascii "buildium") payload.adapter.system), w)
      else if not (adapter_is_write_only payload)
      then (err (AdapterError.write_only_required (ascii "<non-write-only>")), w)
      else if deps.dedup.is_pushed w.log digest
      then (
        ok (
            AdapterOutcome.already_pushed (ascii "buildium")
              (prior_or_digest (deps.dedup.prior_receipt_id w.log digest) digest)),
        w,
      )
      else elim (deps.credentials (ascii "buildium")) [
        | err e ↦ (err e, w)
        | ok credentials ↦ write_note payload signed_receipt digest credentials w
      ]

  pub push : Bytes → deps.Key → World deps → Result AdapterError AdapterOutcome × World deps
  push signed_receipt key w = elim (verify_before_push deps signed_receipt key) [
    | err e ↦ (err e, w)
    | ok payload ↦ push_verified payload signed_receipt w
  ]
