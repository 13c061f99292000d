-- ===== src/Square/Delivery.antt =====
-- square-payment-delivery: a charge, from the command to the evidence of it
-- (src/execute_square_payment.ts and the files that it calls, and the public contract
-- square.payment.execute.v1).
pub mod Matching
pub mod Evidence
use Prim.Native.String
use mo_xx.Js.Effect.{call, ◌>>=◌}
use mo_xx.Payment.Evidence.{evidence_object}
use mo_xx.Js.Text.{utf16_length, is_api_version, is_uuid}
use mathlib.Core.Option.{none}
use mo_xx.Js.Effect.{pure, fail, ◌>>◌, lift, Effect}
use mo_xx.Shared.{
  [], leb, false, ◌∷◌, ◌||◌, ◌===◌, ◌&&◌, true, not, none, some, if◌then◌else◌, Bool, String,
  Option,
}
use mo_xx.Js.Value.{
  bool, end, field, obj, nil, undefined, is_positive_safe, cons, str, prop, is_nil, strict_eq, null,
  is_truthy, arr, Value, Items,
}
use mo_xx.Js.Check.{throw, get, ok, bind, Exc}
use mo_xx.Square.Types.{
  square_sandbox_origin, status_text, request_id_value, matched, is_setting, or_null, mismatch,
  dated, or_empty, disposition_text, SquareResponse, Disposition, SquareRequest, PaymentReceipt,
  Environment, World, Recovery, PaymentStatus, PaymentCommand, Outcome, accepted,
}

-- src/assert_payment_command.ts
unfoldable pub assert_payment_command : PaymentCommand → Exc (Unit {0})
assert_payment_command c =
    if not (is_uuid c.payment_attempt_id && is_uuid c.owner_order_id)
    then throw "invalid_payment_identity"
    else if not (is_positive_safe c.amount_minor)
    then throw "invalid_payment_amount"
    else if not (c.currency === "USD")
    then throw "invalid_payment_currency"
    else if c.source_token === "" || not (leb (utf16_length c.source_token) 512)
    then throw "invalid_payment_source"
    else ok tt

-- src/is_payment_match.ts
unfoldable pub is_payment_match : Value → PaymentCommand → String → Bool
is_payment_match payment c location_id =
    strict_eq (prop payment "reference_id") (str c.owner_order_id)
    && strict_eq (prop payment "location_id") (str location_id)
    && strict_eq (prop (prop payment "amount_money") "amount") c.amount_minor
    && strict_eq (prop (prop payment "amount_money") "currency") (str c.currency)

abbrev receipt : Outcome → PaymentStatus → Value → Value → Recovery → PaymentReceipt
receipt outcome status id updated_at recovery = record {
  outcome = outcome;
  payment_status = status;
  provider_payment_id = id;
  provider_updated_at = updated_at;
  provider_request_id = none;
  recovery = recovery;
}

abbrev unknown_receipt : Recovery → PaymentReceipt
unknown_receipt recovery =
    receipt Outcome.indeterminate PaymentStatus.indeterminate null null recovery

-- the receipt of a payment that matches its command, by the provider's status
unfoldable pub receipt_of_status : Value → Value → Value → PaymentReceipt
receipt_of_status status id updated_at =
    if strict_eq status (str "COMPLETED")
    then receipt Outcome.accepted PaymentStatus.paid id updated_at Recovery.no_recovery
    else if strict_eq status (str "APPROVED")
    then receipt Outcome.accepted PaymentStatus.authorized id updated_at Recovery.retrieve
    else if strict_eq status (str "PENDING")
    then receipt Outcome.pending PaymentStatus.pending id updated_at Recovery.retrieve
    else if strict_eq status (str "CANCELED")
    then receipt Outcome.rejected PaymentStatus.canceled id updated_at Recovery.no_recovery
    else if strict_eq status (str "FAILED")
    then receipt Outcome.rejected PaymentStatus.declined id updated_at Recovery.no_recovery
    else receipt Outcome.indeterminate PaymentStatus.indeterminate id updated_at Recovery.retrieve

-- src/classify_square_payment.ts, from the test of the provider's time on
unfoldable pub classify_dated : Value → PaymentCommand → String → Value → PaymentReceipt
classify_dated payment c location_id updated_at =
    if is_truthy (prop payment "id")
      && is_truthy updated_at
      && is_payment_match payment c location_id
    then receipt_of_status (prop payment "status") (prop payment "id") updated_at
    else receipt Outcome.indeterminate PaymentStatus.indeterminate (or_null (prop payment "id"))
        updated_at Recovery.operator_review

-- `errors.every((error) => error.category === "PAYMENT_METHOD_ERROR")`
unfoldable pub all_method_errors : Items → Exc Bool
all_method_errors nil = ok true
all_method_errors (cons undefined xs) = throw "TypeError"
all_method_errors (cons null xs) = throw "TypeError"
all_method_errors (cons x xs) =
    let rest = all_method_errors xs in
    if strict_eq (prop x "category") (str "PAYMENT_METHOD_ERROR") then rest else ok false

-- src/classify_square_errors.ts. What is no list but has a length has no `every`.
unfoldable pub classify_square_errors : Value → Exc PaymentReceipt
unfolding all_method_errors
classify_square_errors (arr xs) = bind (all_method_errors xs) λ every. ok (
    if every && not (is_nil xs)
    then receipt Outcome.rejected PaymentStatus.declined null null Recovery.operator_review
    else unknown_receipt Recovery.operator_review)
classify_square_errors v = throw "TypeError"

-- `errors?.length`, as a test
abbrev has_length : Value → Bool
has_length (arr xs) = not (is_nil xs)
has_length (str s) = not (s === "")
has_length v = is_truthy (prop v "length")

module _ (date_finite : String → Bool) where
  unfoldable pub classify_square_payment : Value → PaymentCommand → String → Exc PaymentReceipt
  unfolding classify_dated
  classify_square_payment payment c location_id =
      bind (dated date_finite (prop payment "updated_at"))
        λ updated_at. ok (classify_dated payment c location_id updated_at)

  -- src/classify_square_envelope.ts
  unfoldable pub classify_square_envelope :
      Value → Value → PaymentCommand → String → Exc PaymentReceipt
  unfolding classify_square_payment classify_square_errors
  classify_square_envelope payment errors c location_id =
      if is_truthy payment
      then classify_square_payment payment c location_id
      else if has_length errors
      then classify_square_errors errors
      else ok (unknown_receipt Recovery.operator_review)

  -- The answer of the provider: of one that is not ok the errors alone are read.
  unfoldable pub read_answer : SquareResponse → PaymentCommand → String → Exc PaymentReceipt
  unfolding classify_square_envelope
  read_answer response c location_id = bind response.json λ envelope.
      bind (get envelope "errors") λ errors.
        bind
          (classify_square_envelope (if response.is_ok then prop envelope "payment" else undefined)
            errors c location_id)
          λ r. ok (record r { provider_request_id = response.request_id })

abbrev pub payment_request : PaymentCommand → String → String → String → SquareRequest
payment_request c location_id access_token api_version = record {
  url = String.◌++◌ square_sandbox_origin "/v2/payments";
  authorization = String.◌++◌ "Bearer " access_token;
  square_version = api_version;
  body = obj (
      field "source_id" (str c.source_token) (
        field "idempotency_key" (str c.payment_attempt_id) (
          field "amount_money"
            (obj (field "amount" c.amount_minor (field "currency" (str c.currency) end)))
            (field "autocomplete" (bool true) (
              field "location_id" (str location_id)
                (field "reference_id" (str c.owner_order_id) end))))));
}

-- the `catch` of the call of the provider
abbrev or_retrieve : Exc PaymentReceipt → PaymentReceipt
or_retrieve (ok r) = r
or_retrieve (throw e) = unknown_receipt Recovery.retrieve

abbrev pub or_else : Option String → String → String
or_else none d = d
or_else (some s) d = s

module _ (w : World) where
  -- the call of the provider, in its `try` block
  unfoldable pub send_payment :
      PaymentCommand → String → String → String → Effect SquareRequest PaymentReceipt
  unfolding read_answer
  send_payment c location_id access_token api_version = do
    let request = payment_request c location_id access_token api_version
    response ← call request (ok (w.fetch request))
    pure (or_retrieve (bind response (λ r. read_answer w.date_finite r c location_id)))

  -- src/execute_square_payment.ts
  unfoldable pub execute_square_payment :
      PaymentCommand → String → String → String → Effect SquareRequest PaymentReceipt
  unfolding send_payment assert_payment_command
  execute_square_payment c location_id access_token api_version =
      lift (assert_payment_command c)
      >> (if location_id === "" || access_token === "" || not (is_api_version api_version)
          then fail "invalid_square_configuration"
          else send_payment c location_id access_token api_version)

  -- src/build_delivery_evidence.ts
  unfoldable pub delivery_disposition : PaymentReceipt → Disposition
  delivery_disposition r =
      if is_truthy r.provider_payment_id && is_truthy r.provider_updated_at
      then (elim r.recovery [ Recovery.operator_review ↦ mismatch | _ ↦ matched ])
      else Disposition.indeterminate

  unfoldable pub build_delivery_evidence : PaymentCommand → String → PaymentReceipt → Value
  unfolding delivery_disposition
  build_delivery_evidence c location_id r =
      let disposition = disposition_text (delivery_disposition r) in
      let hash = w.digest (
        str c.payment_attempt_id
        ∷ r.provider_payment_id
        ∷ r.provider_updated_at
        ∷ request_id_value r.provider_request_id
        ∷ str (status_text r.payment_status)
        ∷ str disposition
        ∷ []) in
      evidence_object (String.◌++◌ "square:delivery:sha256:" hash) "delivery" (str disposition)
        (str (status_text r.payment_status)) r.provider_payment_id r.provider_updated_at
        (str c.owner_order_id) c.amount_minor (str c.currency) (str location_id)

  -- the receipt of contracts/public/square.payment.execute.v1/execute.ts
  unfoldable pub payment_receipt :
      Environment → PaymentCommand → String → Effect SquareRequest PaymentReceipt
  unfolding execute_square_payment
  payment_receipt env c location_id =
      if or_empty env.access_token === "" || not (is_setting env.location_id location_id)
      then pure (unknown_receipt Recovery.operator_review)
      else execute_square_payment c location_id (or_empty env.access_token)
          (or_else env.api_version "2026-07-15")

  unfoldable pub execute_payment :
      Environment → PaymentCommand → String → Effect SquareRequest Value
  unfolding build_delivery_evidence payment_receipt
  execute_payment env c location_id = do
    r ← payment_receipt env c location_id
    pure (build_delivery_evidence c location_id r)
