-- ===== src/Preorder/Checkout.antt =====
-- The checkout functions: momi-preorder-checkout-hold-v1 and momi-preorder-order-intent-v1, each
-- src/handle_request_with_executor.ts.
pub mod Answers
use mo_xx.Square.Types.{or_empty}
use mo_xx.Shared.{◌===◌, not, if◌then◌else◌, String}
use mo_xx.Payment.Initiate.{Execution}
use mo_xx.Js.Check.{reject, ok, throw, accept, raise, Exc, Check}
use mo_xx.Preorder.Requests.{parse_order_request, parse_hold_request}
use mo_xx.Preorder.Http.{
  content, error, empty, respond, with_retry_after, not_allowed, error_response, retry_later,
  Response, Failure, fault, is_allowed, Request,
}
use mo_xx.Js.Value.{str, strict_eq, prop, is_truthy, Value}
use mo_xx.Js.Effect.{call, fail, pure, Effect, ◌>>=◌}

-- What the two handlers differ in.
pub record Service : Type 0 where
  pub parse : Value → Check Value
  pub invalid : Failure
  pub rate_limited : Failure
  pub unavailable : Failure

-- The database function behind a handler, by what it returns or throws.
abbrev pub Executor : Type 0
Executor = Value → String → Exc Execution

-- A call of the executor: its input and the authority.
abbrev pub ServiceCall : Type 0
ServiceCall = Value × String

-- the answer to an execution
unfoldable pub answer : Service → Request → Execution → Response
answer s request e =
    if not e.admitted
    then with_retry_after (error_response request 429 s.rate_limited)
    else if not (is_truthy e.result)
    then error_response request 503 s.unavailable
    else if is_truthy (prop e.result "error")
    then respond request (if strict_eq (prop e.result "outcome") (str "conflict") then 409 else 422)
        (error (prop e.result "error"))
    else respond request 200 (content e.result)

-- The part of the handler that has the body. An exception of the parser is not caught.
unfoldable pub execute_parsed :
    Service → Executor → Request → Check Value → Effect ServiceCall Response
unfolding answer
execute_parsed s executor request reject = pure (error_response request 400 s.invalid)
execute_parsed s executor request (raise e) = fail e
execute_parsed s executor request (accept input) =
    let authority = or_empty request.authority in
    call (input, authority) (ok (executor input authority)) >>= λ executed. elim executed [
      | ok e ↦ pure (answer s request e)
      | throw e ↦ pure (error_response request 503 s.unavailable)
    ]

-- the body, or the `catch` of its parsing
abbrev with_body : Service → Executor → Request → Exc Value → Effect ServiceCall Response
with_body s executor request (throw e) = pure (error_response request 400 s.invalid)
with_body s executor request (ok raw) = execute_parsed s executor request (s.parse raw)

unfoldable pub handle_request : Service → Executor → Request → Effect ServiceCall Response
unfolding execute_parsed is_allowed
handle_request s executor request =
    if not (is_allowed request.origin)
    then pure (error_response request 403 not_allowed)
    else if request.method === "OPTIONS"
    then pure (respond request 204 empty)
    else if not (request.method === "POST")
    then pure (error_response request 405 s.invalid)
    else with_body s executor request request.json

abbrev pub hold_service : Service
hold_service = record {
  parse = parse_hold_request;
  invalid = fault "invalid_request" "The hold request is invalid.";
  rate_limited = retry_later "rate_limited" "Too many checkout requests were received.";
  unavailable = retry_later "not_found" "Checkout is temporarily unavailable.";
}

abbrev pub order_service : Service
order_service = record {
  parse = parse_order_request;
  invalid = fault "invalid_request" "The order request is invalid.";
  rate_limited = retry_later "rate_limited" "Too many order requests were received.";
  unavailable = retry_later "not_found" "Ordering is temporarily unavailable.";
}

unfoldable pub handle_hold_request : Executor → Request → Effect ServiceCall Response
unfolding handle_request
handle_hold_request = handle_request hold_service

unfoldable pub handle_order_request : Executor → Request → Effect ServiceCall Response
unfolding handle_request
handle_order_request = handle_request order_service
