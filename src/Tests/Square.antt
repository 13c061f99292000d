-- ===== src/Tests/Square.antt =====
-- The Square services, at answers that match and do not match.
use mo_xx.Js.Text.{utf16_length, is_currency_code, is_api_version, is_uuid}
use mo_xx.Square.Reconciliation.Observation.{observe-IsFaithful, IsExpected, IsRetrieved}
use mo_xx.Tests.{
  cents, sample_world, sample_environment, order_uuid, attempt_uuid, answer_of, square_payment,
  any_date,
}
use mo_xx.Square.Webhook.Trust.{authenticate_square_webhook-IsSigned, IsEvent, IsSigned}
use mo_xx.Square.WebhookEvidence.Owned.{authenticate_webhook_evidence-IsTrusted, IsTrusted}
use mo_xx.Square.Webhook.{
  verify_square_webhook_signature, EventKind, authenticate_square_webhook, WebhookPlatform,
  WebhookEvent,
}
use mo_xx.Square.WebhookEvidence.{
  evidence_of_event, authenticated, authenticate_webhook_evidence, AuthenticationResult,
}
use mo_xx.Square.Types.{
  missing, Recovery, PaymentStatus, matched, Outcome, World, RefundReceipt, RefundCommand,
  PaymentReceipt, PaymentCommand,
}
use mo_xx.Square.Retrieval.{read_payment, ProviderPayment}
use mo_xx.Square.Reconciliation.{observe, ExpectedPayment}
use mo_xx.Square.Refund.{is_refund_match, read_refund_answer}
use mo_xx.Square.Delivery.{
  receipt_of_status, is_payment_match, execute_payment, classify_square_payment,
  build_delivery_evidence,
}
use mo_xx.Js.Value.{end, str, whole, strict_eq, prop, field, obj, field_of, Value}
use mo_xx.Js.Check.{accept, require, to_string, ok, Exc, ◌>>◌}
use mo_xx.Shared.{◌≢◌, ◌↔◌, true, refl, [], ◌∷◌, some, none, ℕ, String, List, ◌≡◌}
use mo_xx.Square.Delivery.Evidence.{execute_payment-matched, IsBacked}
use mo_xx.Square.Delivery.Matching.{classify_square_payment-IsFaithful, IsFaithful}

abbrev command : PaymentCommand
command = record {
  payment_attempt_id = attempt_uuid;
  owner_order_id = order_uuid;
  amount_minor = cents;
  currency = "USD";
  source_token = "cnon:card";
}

abbrev pub w : World
w = sample_world "payment" square_payment

abbrev paid : PaymentReceipt
paid = record {
  outcome = Outcome.accepted;
  payment_status = PaymentStatus.paid;
  provider_payment_id = str "PAY1";
  provider_updated_at = str "2026-07-15T10:00:00Z";
  provider_request_id = none;
  recovery = Recovery.no_recovery;
}

paid_of_answer : classify_square_payment any_date square_payment command "LOC1" ≡ ok paid
unfolding classify_square_payment is_payment_match receipt_of_status field_of strict_eq to_string
paid_of_answer = refl

abbrev evidence : Value
evidence = build_delivery_evidence w command "LOC1" paid

charge_runs : (execute_payment w sample_environment command "LOC1").outcome ≡ ok evidence
unfolding execute_payment classify_square_payment is_payment_match receipt_of_status field_of
    strict_eq to_string is_uuid is_api_version utf16_length
charge_runs = refl

charge_matches : prop evidence "disposition" ≡ str "matched"
unfolding build_delivery_evidence field_of
charge_matches = refl

execute_payment-matched_example :
    IsBacked w command "LOC1" (execute_payment w sample_environment command "LOC1") evidence
execute_payment-matched_example =
    execute_payment-matched w command "LOC1" sample_environment evidence charge_runs charge_matches

classify_square_payment-IsFaithful_example : IsFaithful any_date square_payment command "LOC1" paid
classify_square_payment-IsFaithful_example =
    classify_square_payment-IsFaithful any_date square_payment command "LOC1" paid paid_of_answer

abbrev pub refund_command : RefundCommand
refund_command = record {
  refund_attempt_id = attempt_uuid;
  provider_payment_id = "PAY1";
  owner_order_id = order_uuid;
  amount_minor = cents;
  currency = "USD";
  location_id = "LOC1";
}

abbrev pub square_refund : Value
square_refund = obj (
    field "id" (str "REF1") (
      field "payment_id" (str "PAY1") (
        field "status" (str "COMPLETED") (
          field "updated_at" (str "2026-07-16T10:00:00Z") (
            field "location_id" (str "LOC1") (
              field "amount_money" (obj (field "amount" cents (field "currency" (str "USD") end)))
                end))))))

abbrev pub refunded : RefundReceipt
refunded = record {
  outcome = Outcome.accepted;
  payment_status = PaymentStatus.refunded;
  provider_payment_id = "PAY1";
  provider_refund_id = str "REF1";
  provider_updated_at = str "2026-07-16T10:00:00Z";
  provider_request_id = none;
  recovery = Recovery.no_recovery;
}

refund_read :
    read_refund_answer any_date (answer_of "refund" square_refund) refund_command ≡ ok refunded
unfolding read_refund_answer is_refund_match field_of strict_eq to_string
refund_read = refl

abbrev pub expected : ExpectedPayment
expected = record {
  provider_payment_id = "PAY1";
  order_id = order_uuid;
  amount = (whole 1250, "1250");
  currency = "USD";
  location_id = "LOC1";
}

abbrev retrieved_payment : ProviderPayment
retrieved_payment = read_payment any_date square_payment none

observe-IsFaithful_example :
    ((observe expected retrieved_payment).disposition ≡ matched
      → IsRetrieved retrieved_payment × IsExpected retrieved_payment expected)
    × ((observe expected retrieved_payment).disposition ≡ missing
        ↔ (retrieved_payment.error_code ≡ some "not_found"))
    × ((observe expected retrieved_payment).payment_status ≢ PaymentStatus.indeterminate
        → IsRetrieved retrieved_payment)
observe-IsFaithful_example = observe-IsFaithful expected retrieved_payment

abbrev webhook_body : Value
webhook_body = obj (
    field "event_id" (str "EVT1") (
      field "type" (str "payment.updated")
        (field "data" (obj (field "object" (obj (field "payment" square_payment end)) end)) end)))

-- a platform that takes every signature for good
abbrev platform : WebhookPlatform
platform = record {
  decode_base64 = λ s. ok (1 ∷ []);
  encode = λ s. 2 ∷ [];
  import_key = λ key. ok key;
  verify = λ key signature message. ok true;
  parse_json = λ body. ok webhook_body;
}

abbrev event : WebhookEvent
event = record {
  event_id = "EVT1";
  event_type = str "payment.updated";
  kind = EventKind.payment;
  provider_payment_id = "PAY1";
  provider_updated_at = "2026-07-15T10:00:00Z";
  provider_status = "COMPLETED";
  order_id = some order_uuid;
  amount = (whole 1250, "1250");
  currency = "USD";
  location_id = "LOC1";
}

abbrev body : List ℕ
body = 7 ∷ 8 ∷ []

event_accepted :
    authenticate_square_webhook any_date platform body "sig" "key" "https://hooks" ≡ accept event
unfolding authenticate_square_webhook verify_square_webhook_signature field_of strict_eq to_string
    require ◌>>◌ is_currency_code utf16_length
event_accepted = refl

authenticate_square_webhook-IsSigned_example :
    IsSigned platform body "sig" "key" "https://hooks"
    × ((envelope : Value) × (platform.parse_json body ≡ ok envelope)
        × IsEvent any_date envelope event)
authenticate_square_webhook-IsSigned_example =
    authenticate_square_webhook-IsSigned any_date platform body "sig" "key" "https://hooks" event
      event_accepted

abbrev pub encoder : String → Exc String
encoder s = ok s

abbrev trusted : AuthenticationResult
trusted = record {
  disposition = authenticated;
  evidence = some (
      evidence_of_event "square:webhook:sha256:5f" event matched PaymentStatus.paid order_uuid
        (whole 1250, "1250") "USD" "LOC1");
  error_code = none;
}

webhook_trusted :
    (authenticate_webhook_evidence w platform encoder sample_environment body "sig").outcome
    ≡ ok trusted
unfolding authenticate_webhook_evidence authenticate_square_webhook verify_square_webhook_signature
    field_of strict_eq to_string require ◌>>◌ is_currency_code utf16_length is_uuid
webhook_trusted = refl

authenticate_webhook_evidence-IsTrusted_example :
    IsTrusted w platform encoder sample_environment body "sig" trusted
authenticate_webhook_evidence-IsTrusted_example =
    authenticate_webhook_evidence-IsTrusted w platform encoder sample_environment body "sig" trusted
      webhook_trusted refl
