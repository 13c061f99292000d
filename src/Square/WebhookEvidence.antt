-- ===== src/Square/WebhookEvidence.antt =====
-- square-payment-acquisition: the evidence of a webhook event (src/build_webhook_evidence.ts, and the
-- public contract square.payment.webhook.authenticate.v1).
pub mod Owned
use mo_xx.Square.Reconciliation.{number_is, text_is}
use mo_xx.Payment.Evidence.{evidence_object}
use mo_xx.Js.Text.{is_uuid}
use mo_xx.Js.Check.{reject, accept, raise, Exc}
use mo_xx.Square.Webhook.{
  authenticate_square_webhook, payment, WebhookPlatform, WebhookEvent, EventKind,
}
use mo_xx.Square.Types.{
  status_text, is_setting, disposition_text, mismatch, SquareRequest, or_empty, matched,
  PaymentStatus, Environment, Disposition, World,
}
use mo_xx.Square.Retrieval.{
  retrieve_square_payment, ProviderPayment, map_square_refund_status, map_square_payment_status,
}
use mo_xx.Js.Value.{number, str, Number, Value}
use Prim.Native.String
use mo_xx.Js.Effect.{fail, pure, Effect, ◌>>=◌}
use mo_xx.Square.Webhook.{EventKind}
use mo_xx.Shared.{
  ◌&&◌, ◌||◌, ℕ, has, ◌===◌, not, [], ◌∷◌, true, none, if◌then◌else◌, false, some, String, Option,
  List, Bool, ◌≡◌,
}

abbrev is_refund : EventKind → Bool
is_refund EventKind.payment = false
is_refund EventKind.refund = true

-- `!value` of a text that may be null
abbrev is_blank : Option String → Bool
is_blank none = true
is_blank (some s) = s === ""

abbrev is_owned : Option String → Bool
is_owned none = false
is_owned (some s) = is_uuid s

abbrev pub evidence_of_event :
    String
    → WebhookEvent
    → Disposition
    → PaymentStatus
    → String
    → Number × String
    → String
    → String
    → Value
evidence_of_event evidence_id event disposition status order_id amount currency location_id =
    evidence_object evidence_id "webhook" (str (disposition_text disposition))
      (str (status_text status)) (str event.provider_payment_id) (str event.provider_updated_at)
      (str order_id) (number amount.0 amount.1) (str currency) (str location_id)

pub record WebhookEvidence : Type 0 where
  pub evidence : Option Value
  pub retryable : Bool
  pub error_code : Option String

abbrev no_evidence : Bool → String → WebhookEvidence
no_evidence retryable code = record {
  evidence = none;
  retryable = retryable;
  error_code = some code;
}

abbrev some_evidence : Value → Option String → WebhookEvidence
some_evidence evidence code = record {
  evidence = some evidence;
  retryable = false;
  error_code = code;
}

-- The payment is the one of the refund event.
abbrev pub agrees : WebhookEvent → ProviderPayment → Number × String → Bool
agrees event p amount =
    text_is p.provider_payment_id event.provider_payment_id
    && number_is (some amount) event.amount
    && text_is p.currency event.currency
    && text_is p.location_id event.location_id

-- The payment of a refund event, as it was retrieved, with the parts that the evidence needs.
unfoldable pub evidence_of_refund : String → WebhookEvent → ProviderPayment → WebhookEvidence
unfolding map_square_refund_status
evidence_of_refund evidence_id event p =
    if not (is_owned p.order_id)
    then no_evidence false "unowned_provider_event"
    else (elim p.amount_minor [
      | none ↦ no_evidence false "provider_identity_missing"
      | some amount ↦
          if is_blank p.provider_payment_id || is_blank p.currency || is_blank p.location_id
          then no_evidence false "provider_identity_missing"
          else some_evidence
              (evidence_of_event evidence_id event
                (if agrees event p amount then matched else mismatch)
                (map_square_refund_status (some event.provider_status)) (or_empty p.order_id) amount
                (or_empty p.currency) (or_empty p.location_id))
              (if agrees event p amount then none else some "provider_identity_mismatch")
    ])

abbrev retryable_codes : List String
retryable_codes = "provider_indeterminate" ∷ "square_http_error" ∷ "not_found" ∷ []

-- what follows the retrieval of a refund's payment
unfoldable pub refund_evidence : String → WebhookEvent → ProviderPayment → WebhookEvidence
unfolding evidence_of_refund
refund_evidence evidence_id event p = elim p.error_code [
  | none ↦ evidence_of_refund evidence_id event p
  | some code ↦
      if code === ""
      then evidence_of_refund evidence_id event p
      else no_evidence (has retryable_codes code) code
]

unfoldable pub payment_evidence : String → WebhookEvent → WebhookEvidence
unfolding map_square_payment_status
payment_evidence evidence_id event =
    if is_owned event.order_id
    then some_evidence
        (evidence_of_event evidence_id event matched
          (map_square_payment_status (some event.provider_status)) (or_empty event.order_id)
          event.amount event.currency event.location_id)
        none
    else no_evidence false "unowned_provider_event"

module _ (w : World) (encode_uri_component : String → Exc String) where
  -- src/build_webhook_evidence.ts
  unfoldable pub build_webhook_evidence :
      WebhookEvent → String → Effect SquareRequest WebhookEvidence
  unfolding payment_evidence refund_evidence retrieve_square_payment
  build_webhook_evidence event access_token =
      let hash = w.digest (str event.event_id ∷ []) in
      let evidence_id = String.◌++◌ "square:webhook:sha256:" hash in
      elim event.kind [
        | EventKind.payment ↦ pure (payment_evidence evidence_id event)
        | EventKind.refund ↦
            retrieve_square_payment w encode_uri_component event.provider_payment_id access_token
            >>= λ p. pure (refund_evidence evidence_id event p)
      ]

pub data Authentication : Type 0 where
  authenticated ignored retryable rejected unavailable : Authentication

pub record AuthenticationResult : Type 0 where
  pub disposition : Authentication
  pub evidence : Option Value
  pub error_code : Option String

abbrev authentication : Authentication → Option Value → Option String → AuthenticationResult
authentication disposition evidence error_code = record {
  disposition = disposition;
  evidence = evidence;
  error_code = error_code;
}

-- All evidence of a webhook has the source "webhook".
unfoldable pub authentication_of : WebhookEvidence → AuthenticationResult
authentication_of r = elim r.evidence [
  | some evidence ↦ authentication authenticated (some evidence) r.error_code
  | none ↦ authentication (if r.retryable then retryable else ignored) none r.error_code
]

module _ (w : World) (p : WebhookPlatform) (encode_uri_component : String → Exc String) where
  unfoldable pub authenticate_event :
      Environment → WebhookEvent → Effect SquareRequest AuthenticationResult
  unfolding build_webhook_evidence authentication_of
  authenticate_event env event =
      if not (is_setting env.location_id event.location_id)
      then pure (authentication ignored none (some "unowned_provider_event"))
      else if is_refund event.kind && or_empty env.access_token === ""
      then pure (authentication unavailable none (some "provider_configuration_missing"))
      else (build_webhook_evidence w encode_uri_component event (or_empty env.access_token) >>= λ r.
          pure (authentication_of r))

  -- contracts/public/square.payment.webhook.authenticate.v1/authenticate.ts
  unfoldable pub authenticate_webhook_evidence :
      Environment → List ℕ → String → Effect SquareRequest AuthenticationResult
  unfolding authenticate_event
  authenticate_webhook_evidence env raw_body signature =
      if or_empty env.signature_key === ""
        || or_empty env.notification_url === ""
        || or_empty env.location_id === ""
      then pure (authentication unavailable none (some "webhook_configuration_missing"))
      else (elim (authenticate_square_webhook w.date_finite p raw_body signature
          (or_empty env.signature_key) (or_empty env.notification_url)) [
            | raise e ↦ fail e
            | reject ↦ pure (authentication rejected none (some "invalid_webhook"))
            | accept event ↦ authenticate_event env event
          ])
