-- ===== src/Square/Webhook.antt =====
-- square-payment-acquisition: a webhook, from its bytes to an event
-- (src/verify_square_webhook_signature.ts and src/authenticate_square_webhook.ts).
pub mod Trust
use mo_xx.Payment.Evidence.{evidence_object}
use mo_xx.Square.Types.{
  status_text, mismatch, is_setting, disposition_text, SquareRequest, or_empty, matched,
  PaymentStatus, Environment, World, Disposition,
}
use mo_xx.Js.Text.{is_uuid, is_currency_code, utf16_length, fits}
use mo_xx.Square.Retrieval.{
  retrieve_square_payment, map_square_refund_status, map_square_payment_status, ProviderPayment,
  text_of,
}
use mo_xx.Square.Reconciliation.{number_is, text_is}
use mo_xx.Shared.{
  ◌&&◌, true, some, leb, has, ◌++◌, false, ◌||◌, not, none, ◌===◌, [], ◌∷◌, ℕ, if◌then◌else◌,
  Option, Bool, String, List,
}
use mo_xx.Js.Value.{
  number, str, is_positive_safe, is_object, as_number, Number, prop, as_text, Value,
}
use mo_xx.Js.Check.{
  accept, raise, get, bind, text_with, reject, throw, require, to_string, ok, Check, Exc,
}
use text.Mathlib.Text.{starts_with}
use Prim.Native.String
use mo_xx.Js.Effect.{fail, pure, Effect, ◌>>=◌}
use mo_xx.Js.Check.{◌>>◌}

pub data EventKind : Type 0 where
  payment refund : EventKind

pub record WebhookEvent : Type 0 where
  pub event_id : String
  pub event_type : Value
  pub kind : EventKind
  pub provider_payment_id : String
  pub provider_updated_at : String
  pub provider_status : String
  pub order_id : Option String
  pub amount : Number × String
  pub currency : String
  pub location_id : String

abbrev event_types : List String
event_types = "payment.created" ∷ "payment.updated" ∷ "refund.created" ∷ "refund.updated" ∷ []

abbrev kind_of : String → EventKind
kind_of event_type = if starts_with event_type "payment." then payment else refund

abbrev kind_key : EventKind → String
kind_key payment = "payment"
kind_key refund = "refund"

-- The identifier and the order that a record of a payment or of a refund names.
abbrev payment_id_of : EventKind → Value → Value
payment_id_of payment record_value = prop record_value "id"
payment_id_of refund record_value = prop record_value "payment_id"

abbrev order_id_of : EventKind → Value → Option String
order_id_of payment record_value = text_of (prop record_value "reference_id")
order_id_of refund record_value = none

-- What the source returns once its tests have passed: by then each value has its type.
abbrev event_of : String → Value → EventKind → Value → WebhookEvent
event_of event_id event_type kind record_value = record {
  event_id = event_id;
  event_type = event_type;
  kind = kind;
  provider_payment_id = as_text (payment_id_of kind record_value);
  provider_updated_at = as_text (prop record_value "updated_at");
  provider_status = as_text (prop record_value "status");
  order_id = order_id_of kind record_value;
  amount = as_number (prop (prop record_value "amount_money") "amount");
  currency = as_text (prop (prop record_value "amount_money") "currency");
  location_id = as_text (prop record_value "location_id");
}

-- What the service is given from outside: the decoder of base64, the encoder of texts, the import of
-- a key, the check of a signature by key, signature and message, and `JSON.parse` of a decoded body.
pub record WebhookPlatform : Type 0 where
  pub decode_base64 : String → Exc (List ℕ)
  pub encode : String → List ℕ
  pub import_key : List ℕ → Exc (List ℕ)
  pub verify : List ℕ → List ℕ → List ℕ → Exc Bool
  pub parse_json : List ℕ → Exc Value

-- src/verify_square_webhook_signature.ts: the key signs the notification URL and the body. An
-- exception of the check itself is not caught, since its promise is returned unawaited.
unfoldable pub verify_square_webhook_signature :
    WebhookPlatform → List ℕ → String → String → String → Exc Bool
verify_square_webhook_signature w raw_body signature_header signature_key notification_url =
    if signature_header === "" || signature_key === "" || notification_url === ""
    then ok false
    else (elim (w.decode_base64 signature_header) [
      | throw e ↦ ok false
      | ok signature ↦ elim (w.import_key (w.encode signature_key)) [
        | throw e ↦ ok false
        | ok key ↦ w.verify key signature (w.encode notification_url ++ raw_body)
      ]
    ])

module _ (date_finite : String → Bool) where
  unfoldable pub check_record : String → Value → EventKind → Value → Check WebhookEvent
  check_record event_id event_type kind record_value = do
    require (is_object record_value)
    require (is_object (prop record_value "amount_money"))
    require (text_with (fits 1 192) (payment_id_of kind record_value))
    require (text_with date_finite (prop record_value "updated_at"))
    require (text_with (λ s. leb 1 (utf16_length s)) (prop record_value "status"))
    require (is_positive_safe (prop (prop record_value "amount_money") "amount"))
    require (text_with is_currency_code (prop (prop record_value "amount_money") "currency"))
    require (text_with (fits 1 64) (prop record_value "location_id"))
    accept (event_of event_id event_type kind record_value)

  -- `event_type` is the text of the type, which stays as it is in the event
  unfoldable pub check_envelope : Value → String → Check WebhookEvent
  unfolding check_record
  check_envelope envelope event_type =
      let content = prop envelope "data" in
      let subject = prop content "object" in
      require (text_with (fits 1 192) (prop envelope "event_id"))
      >> (require (has event_types event_type)
          >> (require (is_object content)
              >> (require (is_object subject)
                  >> check_record (as_text (prop envelope "event_id")) (prop envelope "type")
                      (kind_of event_type) (prop subject (kind_key (kind_of event_type))))))

  -- the parsed body, whose properties are read: of null that throws
  unfoldable pub read_envelope : Value → Check WebhookEvent
  unfolding check_envelope to_string
  read_envelope envelope =
      if not (text_with (fits 1 192) (prop envelope "event_id"))
      then (elim (get envelope "event_id") [ ok v ↦ reject | throw e ↦ raise e ])
      else (elim (to_string (prop envelope "type")) [
        | ok event_type ↦ check_envelope envelope event_type
        | throw e ↦ raise e
      ])

  -- what follows the check of the signature
  abbrev after_signature : WebhookPlatform → List ℕ → Exc Bool → Check WebhookEvent
  after_signature w raw_body (throw e) = raise e
  after_signature w raw_body (ok false) = reject
  after_signature w raw_body (ok true) = elim (w.parse_json raw_body) [
    | throw e ↦ reject
    | ok envelope ↦ read_envelope envelope
  ]

  -- src/authenticate_square_webhook.ts
  unfoldable pub authenticate_square_webhook :
      WebhookPlatform → List ℕ → String → String → String → Check WebhookEvent
  unfolding read_envelope
  authenticate_square_webhook w raw_body signature signature_key notification_url =
      after_signature w raw_body
        (verify_square_webhook_signature w raw_body signature signature_key notification_url)
