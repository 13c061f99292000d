-- ===== src/Tests.antt =====
-- The values that the tests run on.
mod Payment
mod Square
mod Executions
mod Preorder
mod Readers
mod Webhook
mod Projection
mod Alerts
mod Toast
mod Moxi
use mo_xx.Js.Check.{ok}
use mo_xx.Preorder.Http.{Request}
use mo_xx.Square.Types.{World, SquareResponse, Environment}
use mo_xx.Js.Value.{str, end, whole, field, obj, number, Value}
use mo_xx.Shared.{none, true, some, Bool, String, ◌≡◌}
use mo_xx.Payment.Initiate.{Execution}

abbrev pub command_uuid : String
command_uuid = "0190163d-8694-439b-aea5-966c26f8ad91"

abbrev pub order_uuid : String
order_uuid = "3b241101-e2bb-4255-8caf-4136c566a962"

abbrev pub attempt_uuid : String
attempt_uuid = "6ecd8c99-4036-403d-bf84-cf8400f67836"

abbrev pub claim_uuid : String
claim_uuid = "9b2e8f1c-1d2a-4d5b-9e6f-7a8b9c0d1e2f"

abbrev pub cents : Value
cents = number (whole 1250) "1250"

-- a claim of the kind, for the payment of the provider's
abbrev pub sample_claim : String → Value → Value
sample_claim kind provider = obj (
    field "claim_kind" (str kind) (
      field "claim_id" (str claim_uuid) (
        field "payment_attempt_id" (str attempt_uuid) (
          field "owner_order_id" (str order_uuid) (
            field "amount_minor" cents (
              field "currency" (str "USD")
                (field "location_id" (str "LOC1") (field "provider_payment_id" provider end))))))))

abbrev pub granting_result : Value → Value
granting_result claim = obj (
    field "disposition" (str "claimed") (
      field "claim" claim (
        field "receipt"
          (obj
            (field "payment_attempt_id" (str attempt_uuid) (field "order_id" (str order_uuid) end)))
          end)))

abbrev pub granting_execution : Value → Execution
granting_execution claim = record { admitted = true; result = granting_result claim }

abbrev pub payment_input : Value
payment_input = obj (
    field "command_id" (str command_uuid) (
      field "order_id" (str order_uuid) (
        field "expected_order_version" (number (whole 3) "3")
          (field "source_token" (str "cnon:card") end))))

abbrev pub payment_http : Value → Request
payment_http v = record {
  method = "POST";
  origin = some "https://preorder.dough.monster";
  authority = some "Bearer x";
  content_length = whole 200;
  body_length = 200;
  json = ok v;
}

abbrev pub any_date : String → Bool
any_date s = true

-- Square's payment of an order
abbrev pub square_payment : Value
square_payment = obj (
    field "id" (str "PAY1") (
      field "status" (str "COMPLETED") (
        field "updated_at" (str "2026-07-15T10:00:00Z") (
          field "reference_id" (str order_uuid) (
            field "location_id" (str "LOC1") (
              field "amount_money" (obj (field "amount" cents (field "currency" (str "USD") end)))
                end))))))

abbrev pub answer_of : String → Value → SquareResponse
answer_of k v = record {
  is_ok = true;
  status = 200;
  request_id = none;
  json = ok (obj (field k v end));
}

abbrev pub sample_world : String → Value → World
sample_world k v = record {
  date_finite = any_date;
  digest = λ values. "5f";
  fetch = λ request. ok (answer_of k v);
}

abbrev pub sample_environment : Environment
sample_environment = record {
  access_token = some "token";
  location_id = some "LOC1";
  api_version = none;
  signature_key = some "key";
  notification_url = some "https://hooks";
}
