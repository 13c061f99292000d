-- ===== src/Preorder/PaymentService.antt =====
-- The payment functions: momi-preorder-payment-initiate-v1 and momi-preorder-payment-reconcile-v1,
-- each src/handle_request_with_dependencies.ts and src/read_json_body.ts.
pub mod Answers
use mo_xx.Square.Types.{or_empty}
use mo_xx.Preorder.Requests.{parse_reconcile_request, parse_initiate_request}
use mo_xx.Payment.Reconcile.{ReconcileCall, ReconcileDependencies}
use mo_xx.Payment.Initiate.{PaymentCall, InitiateDependencies, Execution}
use mo_xx.Js.Value.{str, strict_eq, prop, is_truthy, Value}
use mo_xx.Js.Effect.{fail, pure, Effect}
use mo_xx.Js.Check.{reject, accept, raise, throw, ok, Check, Exc}
use mo_xx.Shared.{◌===◌, leb, ◌&&◌, not, if◌then◌else◌, Bool, String}
use mo_xx.Preorder.Http.{
  content, error, empty, respond, not_allowed, fault, with_retry_after, error_response, Response,
  retry_later, is_allowed, accepts_length, Request, Failure,
}
use mo_xx.Payment.Initiate
use mo_xx.Payment.Reconcile

abbrev pub payment_unavailable : Failure
payment_unavailable =
    retry_later "payment_indeterminate" "Payment status is temporarily unavailable."

abbrev pub payment_rate_limited : Failure
payment_rate_limited = retry_later "rate_limited" "Too many payment requests were received."

-- src/read_json_body.ts
unfoldable pub read_json_body : Request → Exc Value
unfolding accepts_length
read_json_body request =
    if accepts_length 8192 request.content_length && leb request.body_length 8192
    then request.json
    else throw "invalid_body_size"

-- The answer to an execution; without a result, or without an error and a receipt, it throws, and
-- the handler's `catch` answers.
unfoldable pub answer : Request → Execution → Response
answer request e =
    if not e.admitted
    then with_retry_after (error_response request 429 payment_rate_limited)
    else if not (is_truthy e.result)
    then error_response request 503 payment_unavailable
    else if is_truthy (prop e.result "error")
    then respond request (if strict_eq (prop e.result "outcome") (str "conflict") then 409 else 422)
        (error (prop e.result "error"))
    else if not (is_truthy (prop e.result "receipt"))
    then error_response request 503 payment_unavailable
    else respond request 200 (content (prop e.result "receipt"))

module _ {C : Type 0} where
  -- `try { … } catch { 503 }` about an orchestration, with the calls that it made
  unfoldable pub guard : Request → Effect C Execution → Effect C Response
  unfolding answer
  guard request run = record {
    outcome = elim run.outcome [
      | ok e ↦ ok (answer request e)
      | throw e ↦ ok (error_response request 503 payment_unavailable)
    ];
    calls = run.calls;
  }

  -- The part of the handler that has the body. An exception of the parser is not caught.
  unfoldable pub orchestrate_parsed :
      Failure → (Value → String → Effect C Execution) → Request → Check Value → Effect C Response
  unfolding guard
  orchestrate_parsed invalid orchestrate request reject = pure (error_response request 400 invalid)
  orchestrate_parsed invalid orchestrate request (raise e) = fail e
  orchestrate_parsed invalid orchestrate request (accept input) =
      guard request (orchestrate input (or_empty request.authority))

  -- the body, or the `catch` of its reading
  abbrev with_body :
      (Value → Check Value)
      → Failure
      → (Value → String → Effect C Execution)
      → Request
      → Exc Value
      → Effect C Response
  with_body parse invalid orchestrate request (throw e) = pure (error_response request 400 invalid)
  with_body parse invalid orchestrate request (ok raw) =
      orchestrate_parsed invalid orchestrate request (parse raw)

  unfoldable pub handle_request :
      (Value → Check Value)
      → Failure
      → (Value → String → Effect C Execution)
      → Request
      → Effect C Response
  unfolding orchestrate_parsed read_json_body is_allowed
  handle_request parse invalid orchestrate request =
      if not (is_allowed request.origin)
      then pure (error_response request 403 not_allowed)
      else if request.method === "OPTIONS"
      then pure (respond request 204 empty)
      else if not (request.method === "POST")
      then pure (error_response request 405 invalid)
      else with_body parse invalid orchestrate request (read_json_body request)

module _ (date_finite : String → Bool) where
  unfoldable pub handle_initiate : InitiateDependencies → Request → Effect PaymentCall Response
  unfolding handle_request
  handle_initiate deps =
      handle_request parse_initiate_request
        (fault "invalid_request" "The payment request is invalid.")
        (λ input authority. Initiate.orchestrate date_finite input authority deps)

  unfoldable pub handle_reconcile : ReconcileDependencies → Request → Effect ReconcileCall Response
  unfolding handle_request
  handle_reconcile deps =
      handle_request parse_reconcile_request
        (fault "invalid_request" "The reconciliation request is invalid.")
        (λ input authority. Reconcile.orchestrate date_finite input authority deps)
