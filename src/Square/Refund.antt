-- ===== src/Square/Refund.antt =====
-- square-payment-delivery: a refund, from the command to its receipt (src/execute_square_refund.ts
-- and the files that it calls, and the public contract square.payment.refund.v1).
pub mod Matching
pub mod Execution
use mo_xx.Square.Delivery.{or_else}
use mo_xx.Js.Text.{utf16_length, is_api_version, is_uuid}
use mo_xx.Js.Check.{get, throw, bind, ok, Exc}
use mo_xx.Shared.{leb, ◌||◌, ◌===◌, ◌&&◌, some, not, none, if◌then◌else◌, Bool, String}
use mo_xx.Js.Value.{
  is_positive_safe, end, undefined, str, field, strict_eq, obj, prop, null, is_truthy, Value,
}
use Prim.Native.String
use mo_xx.Js.Effect.{fail, ◌>>◌, pure, lift, call, Effect, ◌>>=◌}
use mo_xx.Square.Types.{
  is_setting, dated, or_empty, square_sandbox_origin, or_null, SquareResponse, SquareRequest,
  RefundReceipt, Recovery, PaymentStatus, Environment, World, RefundCommand, Outcome,
}

-- src/assert_refund_command.ts
unfoldable pub assert_refund_command : RefundCommand → Exc (Unit {0})
assert_refund_command c =
    if not (is_uuid c.refund_attempt_id && is_uuid c.owner_order_id)
    then throw "invalid_refund_identity"
    else if c.provider_payment_id === ""
        || not (leb (utf16_length c.provider_payment_id) 192)
        || not (is_positive_safe c.amount_minor)
        || not (c.currency === "USD")
        || c.location_id === ""
        || not (leb (utf16_length c.location_id) 64)
    then throw "invalid_refund_command"
    else ok tt

abbrev refund_receipt :
    RefundCommand → Outcome → PaymentStatus → Value → Value → Recovery → RefundReceipt
refund_receipt c outcome status refund_id updated_at recovery = record {
  outcome = outcome;
  payment_status = status;
  provider_payment_id = c.provider_payment_id;
  provider_refund_id = refund_id;
  provider_updated_at = updated_at;
  provider_request_id = none;
  recovery = recovery;
}

unfoldable pub is_refund_match : Value → RefundCommand → Value → Bool
is_refund_match refund c updated_at =
    is_truthy (prop refund "id")
    && strict_eq (prop refund "payment_id") (str c.provider_payment_id)
    && strict_eq (prop refund "location_id") (str c.location_id)
    && strict_eq (prop (prop refund "amount_money") "amount") c.amount_minor
    && strict_eq (prop (prop refund "amount_money") "currency") (str c.currency)
    && is_truthy updated_at

-- src/classify_square_refund.ts, from the test of the provider's time on
unfoldable pub classify_refund_dated : Value → RefundCommand → Value → RefundReceipt
unfolding is_refund_match
classify_refund_dated refund c updated_at =
    let base = refund_receipt c in
    let id = or_null (prop refund "id") in
    let status = prop refund "status" in
    if not (is_refund_match refund c updated_at)
    then base Outcome.indeterminate PaymentStatus.indeterminate id updated_at
        Recovery.operator_review
    else if strict_eq status (str "PENDING")
    then base Outcome.pending PaymentStatus.refund_pending id updated_at Recovery.retrieve
    else if strict_eq status (str "APPROVED") || strict_eq status (str "COMPLETED")
    then base Outcome.accepted PaymentStatus.refunded id updated_at Recovery.no_recovery
    else if strict_eq status (str "REJECTED") || strict_eq status (str "FAILED")
    then base Outcome.rejected PaymentStatus.paid id updated_at Recovery.operator_review
    else base Outcome.indeterminate PaymentStatus.indeterminate id updated_at Recovery.retrieve

abbrev pub refund_request : RefundCommand → String → String → SquareRequest
refund_request c access_token api_version = record {
  url = String.◌++◌ square_sandbox_origin "/v2/refunds";
  authorization = String.◌++◌ "Bearer " access_token;
  square_version = api_version;
  body = obj (
      field "idempotency_key" (str c.refund_attempt_id) (
        field "payment_id" (str c.provider_payment_id) (
          field "amount_money"
            (obj (field "amount" c.amount_minor (field "currency" (str c.currency) end)))
            (field "reason" (str "Order refund") end))));
}

-- what is known before the provider answers
abbrev unknown_refund : RefundCommand → Recovery → RefundReceipt
unknown_refund c recovery =
    refund_receipt c Outcome.indeterminate PaymentStatus.indeterminate null null recovery

unfoldable pub classify_square_refund : (String → Bool) → Value → RefundCommand → Exc RefundReceipt
unfolding classify_refund_dated
classify_square_refund date_finite refund c =
    bind (dated date_finite (prop refund "updated_at"))
      λ updated_at. ok (classify_refund_dated refund c updated_at)

-- the answer of the provider
unfoldable pub read_refund_answer :
    (String → Bool) → SquareResponse → RefundCommand → Exc RefundReceipt
unfolding classify_square_refund
read_refund_answer date_finite response c = bind response.json λ envelope.
    bind (if response.is_ok then get envelope "refund" else ok undefined) λ refund.
      bind
        (if is_truthy refund
          then classify_square_refund date_finite refund c
          else ok (
              unknown_refund c
                (if leb 500 response.status then Recovery.retrieve else Recovery.operator_review)))
        λ r. ok (record r { provider_request_id = response.request_id })

abbrev or_unknown : RefundCommand → Exc RefundReceipt → RefundReceipt
or_unknown c (ok r) = r
or_unknown c (throw e) = unknown_refund c Recovery.retrieve

module _ (w : World) where
  unfoldable pub send_refund : RefundCommand → String → String → Effect SquareRequest RefundReceipt
  unfolding read_refund_answer
  send_refund c access_token api_version = do
    let request = refund_request c access_token api_version
    response ← call request (ok (w.fetch request))
    pure (or_unknown c (bind response (λ r. read_refund_answer w.date_finite r c)))

  -- src/execute_square_refund.ts
  unfoldable pub execute_square_refund :
      RefundCommand → String → String → Effect SquareRequest RefundReceipt
  unfolding send_refund assert_refund_command
  execute_square_refund c access_token api_version =
      lift (assert_refund_command c)
      >> (if access_token === "" || not (is_api_version api_version)
          then fail "invalid_square_configuration"
          else send_refund c access_token api_version)

  -- contracts/public/square.payment.refund.v1/execute.ts
  unfoldable pub execute_refund : Environment → RefundCommand → Effect SquareRequest RefundReceipt
  unfolding execute_square_refund
  execute_refund env c =
      if or_empty env.access_token === "" || not (is_setting env.location_id c.location_id)
      then pure (unknown_refund c Recovery.operator_review)
      else execute_square_refund c (or_empty env.access_token)
          (or_else env.api_version "2026-07-15")
