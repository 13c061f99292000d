-- ===== src/Preorder/OrderStatus.antt =====
-- momi-preorder-order-status-v1: src/handle_request_with_reader.ts.
pub mod Answers
use mo_xx.Square.Types.{or_empty}
use mo_xx.Js.Text.{is_uuid_v5}
use mo_xx.Js.Value.{is_truthy, Value}
use mo_xx.Preorder.Http.{
  empty, content, respond, fault, with_retry_after, not_allowed, error_response, retry_later,
  Response, is_allowed, Request, Failure,
}
use mo_xx.Shared.{◌===◌, not, if◌then◌else◌, Option, String, Bool, ◌≡◌}
use mo_xx.Js.Effect.{call, fail, pure, Effect, ◌>>=◌}
use mo_xx.Js.Check.{ok, throw, Exc}

-- `data` is what the database holds of the order, or null.
pub record StatusRead : Type 0 where
  pub admitted : Bool
  pub data_value : Value

abbrev pub StatusReader : Type 0
StatusReader = String → String → Exc StatusRead

abbrev status_unavailable : Failure
status_unavailable = retry_later "not_found" "Order status is temporarily unavailable."

-- the answer to what was read
unfoldable pub answer : Request → StatusRead → Response
answer request r =
    if not r.admitted
    then with_retry_after (
        error_response request 429
          (retry_later "rate_limited" "Too many status requests were received."))
    else if not (is_truthy r.data_value)
    then error_response request 404 (fault "not_found" "The order was not found.")
    else respond request 200 (content r.data_value)

-- the answer, or the `catch` of the reader
abbrev answer_read : Request → Exc StatusRead → Response
answer_read request (throw e) = error_response request 503 status_unavailable
answer_read request (ok r) = answer request r

-- `order_id` is the parameter of the URL, if it has one. The calls of the reader are logged.
unfoldable pub handle_status :
    StatusReader → Request → Option String → Effect (String × String) Response
unfolding answer is_allowed
handle_status reader request order_id =
    if not (is_allowed request.origin)
    then pure (error_response request 403 not_allowed)
    else if request.method === "OPTIONS"
    then pure (respond request 204 empty)
    else if not (request.method === "GET")
    then pure (error_response request 405 (fault "invalid_request" "Method not allowed."))
    else if not (is_uuid_v5 (or_empty order_id))
    then pure (error_response request 400 (fault "invalid_request" "The order request is invalid."))
    else (do
      let authority = or_empty request.authority
      read ← call (or_empty order_id, authority) (ok (reader (or_empty order_id) authority))
      pure (answer_read request read))
