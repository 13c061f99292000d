-- ===== src/Preorder/SquareWebhook.antt =====
-- momi-preorder-square-webhook-v1: src/process_webhook.ts and the files that it calls.
pub mod Trace
pub mod Order
use mo_xx.Payment.Evidence.{parse_payment_evidence}
use mo_xx.Js.Text.{fits}
use mathlib.Core.Option.{none}
use mo_xx.Square.Types.{or_null, or_empty}
use mo_xx.Shared.{
  length, ◌===◌, not, none, leb, ◌&&◌, some, false, true, if◌then◌else◌, ℕ, String, Option, List,
  Bool,
}
use mo_xx.Preorder.Http.{accepts_length}
use mo_xx.Js.Value.{strict_eq, is_truthy, as_text, undefined, obj, str, prop, null, Number, Value}
use mo_xx.Js.Check.{Check, reject, raise, accept, text_with, get, throw, ok, Exc}
use Prim.Native.String
use mo_xx.Js.Effect.{fail, call, pure, Effect, ◌>>=◌}
use mo_xx.Square.WebhookEvidence.{
  AuthenticationResult, Authentication, authenticated, ignored, retryable, rejected, unavailable,
}

-- A call of the webhook's dependencies.
pub data WebhookCall : Type 0 where
  authenticate : List ℕ → String → WebhookCall
  -- what is captured, under its identity, location and order
  capture : Value → String → Value → Value → Authentication → WebhookCall
  resolve : Value → WebhookCall
  project : String → Value → WebhookCall

pub record WebhookDependencies : Type 0 where
  pub location_id : String
  pub authenticate : List ℕ → String → Exc AuthenticationResult
  pub capture : Value → String → Value → Exc (Unit {0})
  pub resolve : Value → Exc (Option String)
  pub project : String → Value → Exc Value

-- A delivery of Square's, by what the function reads of it. `payload` is the JSON of the body, or
-- what decoding or parsing throws, and `digest` the SHA-256 of the body in hex.
pub record Delivery : Type 0 where
  pub method : String
  pub signature : Option String
  pub content_length : Number
  pub body : List ℕ
  pub payload : Exc Value
  pub digest : String

pub data Reply : Type 0 where
  refuse : ℕ → String → Reply
  -- `successResponse`: status 200 with the disposition
  succeed : Value → Reply

-- src/read_raw_body.ts
abbrev maximum_bytes : ℕ
maximum_bytes = 262144

unfoldable pub read_raw_body : Delivery → Exc (List ℕ)
unfolding accepts_length
read_raw_body d =
    if accepts_length maximum_bytes d.content_length
      && leb 1 (length d.body)
      && leb (length d.body) maximum_bytes
    then ok d.body
    else throw "payload_too_large"

-- src/parse_raw_payload.ts
abbrev parse_raw_payload : Exc Value → Option Value
parse_raw_payload (ok (obj fs)) = some (obj fs)
parse_raw_payload (ok v) = none
parse_raw_payload (throw e) = none

-- src/read_webhook_identity.ts
unfoldable pub read_webhook_identity : Value → String → String
read_webhook_identity payload raw_digest =
    let event_id = prop payload "event_id" in
    let event_type = prop payload "type" in
    if text_with (fits 1 192) event_id && text_with (fits 1 64) event_type
    then String.◌++◌ "square:webhook:event:"
        (String.◌++◌ (as_text event_type) (String.◌++◌ ":" (as_text event_id)))
    else String.◌++◌ "square:webhook:raw:sha256:" raw_digest

-- src/archive_context.ts: the location and the order of what is captured
abbrev context_location : Option Value → String → Value
context_location none configured = str configured
context_location (some evidence) configured = elim (prop evidence "location_id") [
  | null ↦ str configured
  | undefined ↦ str configured
  | v ↦ v
]

abbrev context_order : Option Value → Value
context_order none = null
context_order (some evidence) = or_null (prop evidence "order_id")

-- the evidence of the authentication, as far as the parser lets it through
pub data Parsed : Type 0 where
  -- the result is no evidence, or it is not a webhook's
  invalid : Parsed
  valid : Option Value → Parsed
  failed : String → Parsed

abbrev requires_evidence : Authentication → Bool
requires_evidence authenticated = true
requires_evidence _ = false

abbrev is_ignored : Authentication → Bool
is_ignored ignored = true
is_ignored _ = false

abbrev is_retryable : Authentication → Bool
is_retryable retryable = true
is_retryable _ = false

-- evidence of another source is not a webhook's
abbrev webhook_only : Check Value → Parsed
webhook_only (accept e) =
    if strict_eq (prop e "source") (str "webhook") then valid (some e) else invalid
webhook_only reject = invalid
webhook_only (raise e) = failed e

module _ (date_finite : String → Bool) where
  unfoldable pub parse_result : AuthenticationResult → Parsed
  parse_result r = elim r.evidence [
    | none ↦ if requires_evidence r.disposition then invalid else valid none
    | some v ↦ webhook_only (parse_payment_evidence date_finite v)
  ]

-- `projection.disposition ?? "applied"`
abbrev or_applied : Value → Value
or_applied undefined = str "applied"
or_applied null = str "applied"
or_applied v = v

-- The answer to what the projection returns or throws; a projection of null throws when it is read.
unfoldable pub projection_reply : Exc Value → Reply
projection_reply (throw e) = refuse 503 "projection failed"
projection_reply (ok projection) = elim (get projection "receipt") [
  | throw e ↦ refuse 503 "projection failed"
  | ok receipt ↦
      if not (is_truthy receipt) && is_truthy (prop projection "error")
      then refuse 503 "projection failed"
      else succeed (or_applied (prop projection "disposition"))
]

-- an attempt that was resolved is projected
abbrev project_resolved :
    WebhookDependencies → Value → Exc (Option String) → Effect WebhookCall Reply
project_resolved deps evidence (throw e) = pure (refuse 503 "projection failed")
project_resolved deps evidence (ok none) = pure (succeed (str "unmatched"))
project_resolved deps evidence (ok (some attempt)) =
    if attempt === ""
    then pure (succeed (str "unmatched"))
    else (call (project attempt evidence) (ok (deps.project attempt evidence)) >>= λ projection.
        pure (projection_reply projection))

-- what follows the capture
unfoldable pub apply_evidence :
    WebhookDependencies → Authentication → Option Value → Effect WebhookCall Reply
unfolding projection_reply
apply_evidence deps disposition evidence =
    if is_ignored disposition then pure (succeed (str "ignored")) else (elim evidence [
      | none ↦ pure (refuse 503 "provider unavailable")
      | some e ↦
          if is_retryable disposition
          then pure (refuse 503 "provider unavailable")
          else (call (resolve e) (ok (deps.resolve e)) >>= project_resolved deps e)
    ])

abbrev after_capture :
    WebhookDependencies → Authentication → Option Value → Exc (Unit {0}) → Effect WebhookCall Reply
after_capture deps disposition evidence (throw e) = pure (refuse 503 "persistence failed")
after_capture deps disposition evidence (ok _) = apply_evidence deps disposition evidence

-- the capture of the payload, under its identity
unfoldable pub capture_evidence :
    WebhookDependencies
    → Delivery
    → Value
    → Authentication
    → Option Value
    → Effect WebhookCall Reply
unfolding read_webhook_identity apply_evidence
capture_evidence deps d payload disposition evidence =
    let identity = read_webhook_identity payload d.digest in
    let location = context_location evidence deps.location_id in
    if text_with (fits 1 64) location
    then (call (capture payload identity location (context_order evidence) disposition)
          (ok (deps.capture payload identity location))
        >>= after_capture deps disposition evidence)
    else pure (refuse 503 "service unavailable")

module _ (date_finite : String → Bool) where
  abbrev with_evidence :
      WebhookDependencies → Delivery → Value → Authentication → Parsed → Effect WebhookCall Reply
  with_evidence deps d payload disposition invalid = pure (refuse 503 "invalid provider evidence")
  with_evidence deps d payload disposition (failed e) = fail e
  with_evidence deps d payload disposition (valid evidence) =
      capture_evidence deps d payload disposition evidence

  abbrev with_payload :
      WebhookDependencies
      → Delivery
      → AuthenticationResult
      → Option Value
      → Effect WebhookCall Reply
  with_payload deps d r none = pure (refuse 400 "invalid payload")
  with_payload deps d r (some payload) =
      with_evidence deps d payload r.disposition (parse_result date_finite r)

  -- what follows an authentication that is neither rejected nor unavailable
  unfoldable pub process_authenticated :
      WebhookDependencies → Delivery → AuthenticationResult → Effect WebhookCall Reply
  unfolding capture_evidence parse_result
  process_authenticated deps d r = with_payload deps d r (parse_raw_payload d.payload)

  abbrev by_disposition :
      WebhookDependencies
      → Delivery
      → AuthenticationResult
      → Authentication
      → Effect WebhookCall Reply
  by_disposition deps d r rejected = pure (refuse 401 "invalid signature or payload")
  by_disposition deps d r unavailable = pure (refuse 503 "service unavailable")
  by_disposition deps d r _ = process_authenticated deps d r

  abbrev after_authentication :
      WebhookDependencies → Delivery → Exc AuthenticationResult → Effect WebhookCall Reply
  after_authentication deps d (throw e) = pure (refuse 503 "service unavailable")
  after_authentication deps d (ok r) = by_disposition deps d r r.disposition

  abbrev authenticate_body :
      WebhookDependencies → Delivery → String → Exc (List ℕ) → Effect WebhookCall Reply
  authenticate_body deps d signature (throw e) = pure (refuse 413 "payload too large")
  authenticate_body deps d signature (ok body) =
      call (authenticate body signature) (ok (deps.authenticate body signature))
      >>= after_authentication deps d

  unfoldable pub process_webhook : WebhookDependencies → Delivery → Effect WebhookCall Reply
  unfolding process_authenticated read_raw_body
  process_webhook deps d =
      let signature = or_empty d.signature in
      if not (d.method === "POST")
      then pure (refuse 405 "method not allowed")
      else if fits 1 512 signature
      then authenticate_body deps d signature (read_raw_body d)
      else pure (refuse 401 "invalid signature")
