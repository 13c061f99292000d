-- ===== src/Tests/Webhook.antt =====
-- The processing of a webhook that is authenticated.
use mo_xx.Preorder.Http.{accepts_length}
use mo_xx.Js.Text.{is_currency_code, utf16_length, is_uuid}
use mo_xx.Tests.{attempt_uuid, cents, order_uuid, any_date}
use mo_xx.Square.WebhookEvidence.{authenticated}
use mo_xx.Js.Value.{end, field, obj, null, str, strict_eq, whole, field_of}
use mo_xx.Preorder.SquareWebhook.Order.{process_webhook-IsTrace}
use mo_xx.Payment.Evidence.{evidence_object, parse_payment_evidence}
use mo_xx.Js.Check.{to_string, require_ok, require, on_text, ok, ◌>>◌}
use mo_xx.Preorder.SquareWebhook.Trace.{IsTrace}
use mo_xx.Shared.{refl, length, none, [], ◌∷◌, some, ◌≡◌}
use mo_xx.Preorder.SquareWebhook.{WebhookDependencies, Delivery, process_webhook}

abbrev webhook_deps : WebhookDependencies
webhook_deps = record {
  location_id = "LOC1";
  authenticate = λ body signature. ok (record {
    disposition = authenticated;
    evidence = some (
        evidence_object "square:webhook:sha256:5f" "webhook" (str "matched") (str "paid")
          (str "PAY1") null (str order_uuid) cents (str "USD") (str "LOC1"));
    error_code = none;
  });
  capture = λ payload identity location. ok tt;
  resolve = λ evidence. ok (some attempt_uuid);
  project = λ attempt evidence. ok (obj (field "receipt" evidence end));
}

abbrev delivery : Delivery
delivery = record {
  method = "POST";
  signature = some "sig";
  content_length = whole 2;
  body = 7 ∷ 8 ∷ [];
  payload = ok (obj (field "event_id" (str "EVT1") (field "type" (str "payment.updated") end)));
  digest = "5f";
}

process_webhook-IsTrace_example :
    IsTrace any_date webhook_deps delivery (process_webhook any_date webhook_deps delivery).calls
process_webhook-IsTrace_example = process_webhook-IsTrace any_date webhook_deps delivery

-- the webhook is projected
webhook_projects : length (process_webhook any_date webhook_deps delivery).calls ≡ 4
unfolding process_webhook parse_payment_evidence field_of strict_eq is_uuid on_text require
    require_ok ◌>>◌ to_string utf16_length accepts_length is_currency_code
webhook_projects = refl
