-- ===== src/Adapter/Buildium/Push/Tests.antt =====
-- Runs and instances of `push` against a remote side that fails some times and then accepts.
use pask_workspace.Prelude.{
  ℕ, ◌+◌, ◌-◌, ◌≡◌, ◌≢◌, ◌⊎◌, refl, false, ltb, if◌then◌else◌, [], ◌∷◌, Text, ascii, ok,
}
use pask_workspace.Wire.Json.{Json}
use pask_workspace.Wire.Payload.Fields.{Payload}
use pask_workspace.Wire.Payload.Validate.Samples.{genesis, sample_digest}
use pask_workspace.Adapter.Error.{AdapterOutcome, is_retryable}
use pask_workspace.Adapter.Retry.{default, delay_after, retry_loop, run_with_retry_and_sleep}
use pask_workspace.Adapter.Dedup.{Bytes, receipt_digest}
use pask_workspace.Adapter.Dedup.Memory
use pask_workspace.Adapter.Dedup.Memory.{memory_log}
use pask_workspace.Adapter.Buildium.{
  Deps, World, verify_before_push, adapter_is_write_only, build_note, note_url, transmit,
  note_answer, parse_note_id, failed_status, post_once,
}
use pask_workspace.Adapter.Buildium.Push.{
  sleep, finish, post_with_retry, write_note, push_verified, push,
}
use pask_workspace.Adapter.Buildium.Push.Guards.{IsOurs}
use pask_workspace.Adapter.Buildium.Push.Once.{Explained, push-Explained, push-push}
use pask_workspace.Adapter.Buildium.Push.Requests.{Traced, push-Traced}

-- The remote side is the number of failures to come.
abbrev deps : Deps
deps = record {
  Net = ℕ;
  send = λ request n. (
    ok (if ltb 0 n then record { status = 503; body = [] } else record { status = 201; body = [] }),
    n - 1,
  );
  now = λ n. 7;
  dedup = memory_log;
  credentials = λ name. ok (record { client_id = ascii "id"; client_secret = ascii "secret" });
  Key = Unit {0};
  verify_ed25519 = λ bytes key. ok genesis;
  sha256 = λ bytes. sample_digest;
  url_with_segments = λ segments. ok (ascii "https://api");
  to_value = λ note. ok (Json.string note.subject);
  parse_note_response = λ body. ok 5;
  decimal = λ n. (48 + n) ∷ [];
}

start : World deps
unfolding memory_log
start = record { net = 1; sent = []; slept = []; log = [] }

abbrev receipt : Bytes
receipt = 1 ∷ 2 ∷ []

after : World deps
unfolding push push_verified
after = (push deps default receipt tt start).1

first_push :
    push deps default receipt tt start
    ≡ (ok (AdapterOutcome.pushed (ascii "buildium") (ascii "buildium-note-5") 7), after)
unfolding after start push push_verified verify_before_push write_note build_note post_with_retry
    run_with_retry_and_sleep retry_loop is_retryable post_once transmit note_answer failed_status
    parse_note_id note_url finish sleep adapter_is_write_only memory_log Memory.is_pushed
    Memory.lookup Memory.insert receipt_digest delay_after
first_push = refl

push-push_example :
    push deps default receipt tt after
    ≡ (ok (AdapterOutcome.already_pushed (ascii "buildium") (ascii "buildium-note-5")), after)
push-push_example =
    push-push deps default receipt tt start after (ascii "buildium") (ascii "buildium-note-5") 7
      first_push

push-Explained_example :
    Explained deps default
      (receipt_digest (λ bytes. sample_digest) receipt)
      start
      (push deps default receipt tt start)
push-Explained_example = push-Explained deps default receipt tt start

push-Traced_example :
    (((push deps default receipt tt start).1 ≡ start)
      × ((name id : Text) (at : ℕ)
          → (push deps default receipt tt start).0 ≢ ok (AdapterOutcome.pushed name id at)))
    ⊎ ((payload : Payload) × (verify_before_push deps receipt tt ≡ ok payload)
        × IsOurs deps default payload
        × (deps.dedup.is_pushed start.log (receipt_digest (λ bytes. sample_digest) receipt) ≡ false)
        × Traced deps default payload.adapter.endpoint start (push deps default receipt tt start))
push-Traced_example = push-Traced deps default receipt tt start
