-- ===== src/Adapter/Buildium.antt =====
-- crates/pask-adapter/src/buildium and verify.rs, credential.rs. Each method takes the world and
-- returns it changed: what the remote side is in, the requests sent, the delays slept, and the log.
-- The verification of a receipt comes from pask-wire, as a parameter. The other parameters stand for
-- the crates sha2, url, serde_json, the standard library, and the implementations of the traits.
pub mod Push
use pask_workspace.Prelude.{
  ℕ, List, [], ◌∷◌, ◌++◌, Bool, true, false, ◌&&◌, leb, ◌==◌, Option, none, some, if◌then◌else◌,
  take, String, Text, ascii, concat, Result, ok, err, ◌>>=◌,
}
use pask_workspace.Wire.Error.{Error, display}
use pask_workspace.Wire.Json.{Json}
use pask_workspace.Wire.Payload.Fields.{Payload, write_only, AdapterMode}
use pask_workspace.Adapter.Error.{AdapterError}
use pask_workspace.Adapter.Dedup.{Bytes, DedupLog, receipt_digest, lower_hex}

pub data HttpMethod : Type 0 where
  get post : HttpMethod

pub record HttpRequest : Type 0 where
  pub method : HttpMethod
  pub url : Text
  pub headers : List (Text × Text)
  pub body : Option Json

pub record HttpResponse : Type 0 where
  pub status : ℕ
  pub body : Bytes

pub record Credentials : Type 0 where
  pub client_id : Text
  pub client_secret : Text

pub record BuildiumNote : Type 0 where
  pub subject : Text
  pub note : Text
  pub is_private : Bool

-- What an adapter is built over. `Net` is the state of the remote side and of the clock.
pub record Deps : Type 1 where
  pub Net : Type 0
  pub send : HttpRequest → Net → Result AdapterError HttpResponse × Net
  pub now : Net → ℕ
  pub dedup : DedupLog
  pub credentials : Text → Result AdapterError Credentials
  pub Key : Type 0
  pub verify_ed25519 : Bytes → Key → Result Error Payload
  pub sha256 : Bytes → Bytes
  pub url_with_segments : List Text → Result AdapterError Text
  pub to_value : BuildiumNote → Result Text Json
  pub parse_note_response : Bytes → Result Text ℕ
  pub decimal : ℕ → Text

pub adapter_is_write_only : Payload → Bool
adapter_is_write_only payload = elim payload.adapter.mode [ AdapterMode.write_only ↦ true ]

pub auth_headers : Credentials → List (Text × Text)
auth_headers c =
    (ascii "x-buildium-client-id", c.client_id)
    ∷ (ascii "x-buildium-client-secret", c.client_secret)
    ∷ (ascii "content-type", ascii "application/json")
    ∷ []

-- The newline that stands before each label but the first.
abbrev pub newline : String → Text
newline label = 10 ∷ ascii label

module _ (deps : Deps) where
  pub record World : Type 0 where
    pub net : deps.Net
    pub sent : List HttpRequest
    pub slept : List ℕ
    pub log : deps.dedup.Log

  pub verify_before_push : Bytes → deps.Key → Result AdapterError Payload
  verify_before_push signed_receipt key = elim (deps.verify_ed25519 signed_receipt key) [
    | ok payload ↦ ok payload
    | err source ↦ err (AdapterError.verification_failed (display source))
  ]

  pub build_note : Payload → Bytes → Text × BuildiumNote
  build_note payload signed_receipt =
      let digest = lower_hex (receipt_digest deps.sha256 signed_receipt) in
      (
        payload.adapter.endpoint,
        record {
          subject = ascii "Pask Receipt " ++ take 12 digest;
          note = concat (
              ascii "Receipt ID: "
              ∷ digest
              ∷ newline "Site: "
              ∷ payload.site.id
              ∷ newline "Actor: "
              ∷ payload.actor.id
              ∷ newline "Engagement: "
              ∷ payload.engagement.id
              ∷ newline "Window: "
              ∷ payload.engagement.window.start
              ∷ ascii " .. "
              ∷ payload.engagement.window.end
              ∷ newline "Evidence digest: "
              ∷ payload.attestation.sealed_evidence.digest
              ∷ []);
          is_private = false;
        },
      )

  pub note_url : Text → Result AdapterError Text
  note_url property_id =
      deps.url_with_segments (ascii "v1" ∷ ascii "rentals" ∷ property_id ∷ ascii "notes" ∷ [])

  pub healthcheck_url : Result AdapterError Text
  healthcheck_url =
      deps.url_with_segments (ascii "v1" ∷ ascii "administration" ∷ ascii "accountinfo" ∷ [])

  pub parse_note_id : Bytes → Result AdapterError Text
  parse_note_id body = elim (deps.parse_note_response body) [
    | ok id ↦ ok (ascii "buildium-note-" ++ deps.decimal id)
    | err message ↦ err (AdapterError.invalid_response message)
  ]

  -- The match on the status that follows the success cases.
  pub failed_status : ℕ → Text → AdapterError
  failed_status status unexpected =
      if status == 429
      then AdapterError.rate_limited
      else if leb 500 status && leb status 599
      then AdapterError.server_error status
      else if leb 400 status && leb status 499
      then AdapterError.bad_request status
      else AdapterError.invalid_response (unexpected ++ deps.decimal status)

  pub transmit : HttpRequest → World → Result AdapterError HttpResponse × World
  transmit request w =
      let (response, net) = deps.send request w.net in
      (response, record w { net = net; sent = w.sent ++ (request ∷ []) })

  pub note_answer : Result AdapterError HttpResponse → Result AdapterError Text
  note_answer (err e) = err e
  note_answer (ok response) =
      if response.status == 201
      then parse_note_id response.body
      else err (failed_status response.status (ascii "unexpected note status "))

  pub post_request : Text → Credentials → Json → HttpRequest
  post_request url credentials body = record {
    method = HttpMethod.post;
    url = url;
    headers = auth_headers credentials;
    body = some body;
  }

  pub post_once : Text → Credentials → Json → World → Result AdapterError Text × World
  post_once property_id credentials body w = elim (note_url property_id) [
    | err e ↦ (err e, w)
    | ok url ↦
        let (response, w') = transmit (post_request url credentials body) w in
        (note_answer response, w')
  ]

  pub health_answer : Result AdapterError HttpResponse → Result AdapterError (Unit {0})
  health_answer (err e) = err e
  health_answer (ok response) =
      if leb 200 response.status && leb response.status 299
      then ok tt
      else err (failed_status response.status (ascii "unexpected health-check status "))

  pub healthcheck : World → Result AdapterError (Unit {0}) × World
  healthcheck w = elim (deps.credentials (ascii "buildium")) [
    | err e ↦ (err e, w)
    | ok credentials ↦ elim healthcheck_url [
      | err e ↦ (err e, w)
      | ok url ↦
          let (response, w') =
            transmit
              (record {
                method = HttpMethod.get;
                url = url;
                headers = auth_headers credentials;
                body = none;
              })
              w in
          (health_answer response, w')
    ]
  ]
