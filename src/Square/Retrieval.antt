-- ===== src/Square/Retrieval.antt =====
-- square-payment-acquisition: a payment as the provider holds it (src/retrieve_square_payment.ts and
-- the status maps).
use mo_xx.Js.Text.{utf16_length}
use mo_xx.Js.Check.{get, bind, ok, throw, Exc}
use mo_xx.Square.Types.{square_sandbox_origin, SquareRequest, SquareResponse, PaymentStatus, World}
use mo_xx.Shared.{leb, not, ◌||◌, ◌==◌, ◌===◌, if◌then◌else◌, some, none, String, Option, Bool}
use mo_xx.Js.Value.{is_object, undefined, number, str, prop, Number, Value}
use Prim.Native.String
use mo_xx.Js.Effect.{lift, call, pure, Effect, ◌>>=◌}

-- src/map_square_status.ts
unfoldable pub map_square_payment_status : Option String → PaymentStatus
map_square_payment_status none = PaymentStatus.indeterminate
map_square_payment_status (some s) =
    if s === "COMPLETED"
    then PaymentStatus.paid
    else if s === "APPROVED"
    then PaymentStatus.authorized
    else if s === "PENDING"
    then PaymentStatus.pending
    else if s === "CANCELED"
    then PaymentStatus.canceled
    else if s === "FAILED"
    then PaymentStatus.declined
    else PaymentStatus.indeterminate

-- src/map_square_refund_status.ts
unfoldable pub map_square_refund_status : Option String → PaymentStatus
map_square_refund_status none = PaymentStatus.indeterminate
map_square_refund_status (some s) =
    if s === "PENDING"
    then PaymentStatus.refund_pending
    else if s === "APPROVED" || s === "COMPLETED"
    then PaymentStatus.refunded
    else if s === "REJECTED" || s === "FAILED"
    then PaymentStatus.paid
    else PaymentStatus.indeterminate

pub record ProviderPayment : Type 0 where
  pub provider_payment_id : Option String
  pub provider_updated_at : Option String
  pub provider_status : Option String
  pub provider_request_id : Option String
  pub order_id : Option String
  pub amount_minor : Option (Number × String)
  pub currency : Option String
  pub location_id : Option String
  pub error_code : Option String

abbrev failed_retrieval : String → Option String → String → ProviderPayment
failed_retrieval id request_id error_code = record {
  provider_payment_id = some id;
  provider_updated_at = none;
  provider_status = none;
  provider_request_id = request_id;
  order_id = none;
  amount_minor = none;
  currency = none;
  location_id = none;
  error_code = some error_code;
}

-- `typeof v === "string" ? v : null` and `typeof v === "number" ? v : null`
abbrev pub text_of : Value → Option String
text_of (str s) = some s
text_of v = none

abbrev pub number_of : Value → Option (Number × String)
number_of (number n t) = some (n, t)
number_of v = none

abbrev pub dated_text : (String → Bool) → Value → Option String
dated_text date_finite (str s) = if date_finite s then some s else none
dated_text date_finite v = none

-- the payment of an answer
unfoldable pub read_payment : (String → Bool) → Value → Option String → ProviderPayment
read_payment date_finite payment request_id = record {
  provider_payment_id = text_of (prop payment "id");
  provider_updated_at = dated_text date_finite (prop payment "updated_at");
  provider_status = text_of (prop payment "status");
  provider_request_id = request_id;
  order_id = text_of (prop payment "reference_id");
  amount_minor = number_of (prop (prop payment "amount_money") "amount");
  currency = text_of (prop (prop payment "amount_money") "currency");
  location_id = text_of (prop payment "location_id");
  error_code = none;
}

-- What follows an answer whose body could be parsed. A body of null is read after the test of the
-- status, and that throws.
unfoldable pub read_body : (String → Bool) → String → SquareResponse → Value → Exc ProviderPayment
unfolding read_payment
read_body date_finite id response body =
    if response.status == 404
    then ok (failed_retrieval id response.request_id "not_found")
    else bind (get body "payment") λ payment. ok (
        if not response.is_ok || not (is_object payment)
        then failed_retrieval id response.request_id "square_http_error"
        else read_payment date_finite payment response.request_id)

abbrev read_response : (String → Bool) → String → Exc SquareResponse → Exc ProviderPayment
read_response date_finite id (throw e) = ok (failed_retrieval id none "provider_indeterminate")
read_response date_finite id (ok response) = elim response.json [
  | throw e ↦ ok (failed_retrieval id response.request_id "provider_indeterminate")
  | ok body ↦ read_body date_finite id response body
]

module _ (w : World) (encode_uri_component : String → Exc String) where
  abbrev pub retrieval_request : String → String → SquareRequest
  retrieval_request encoded_id access_token = record {
    url = String.◌++◌ square_sandbox_origin (String.◌++◌ "/v2/payments/" encoded_id);
    authorization = String.◌++◌ "Bearer " access_token;
    square_version = "2026-07-15";
    body = undefined;
  }

  -- the call, which an identifier that cannot be encoded keeps from being made
  unfoldable pub send_retrieval :
      String → String → Exc String → Effect SquareRequest ProviderPayment
  unfolding read_body
  send_retrieval id access_token (throw e) =
      pure (failed_retrieval id none "provider_indeterminate")
  send_retrieval id access_token (ok encoded_id) = do
    let request = retrieval_request encoded_id access_token
    response ← call request (ok (w.fetch request))
    lift (read_response w.date_finite id response)

  unfoldable pub retrieve_square_payment : String → String → Effect SquareRequest ProviderPayment
  unfolding send_retrieval
  retrieve_square_payment id access_token =
      if id === "" || not (leb (utf16_length id) 192) || access_token === ""
      then pure (failed_retrieval id none "invalid_observation_request")
      else send_retrieval id access_token (encode_uri_component id)
