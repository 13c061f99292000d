-- ===== src/Tests/Preorder.antt =====
-- The functions, at requests that are admitted.
use mo_xx.Preorder.Requests.Admission.{parse_order_request-accepted, IsContact}
use mo_xx.Payment.Reconcile.Authority.{IsPermitted}
use mo_xx.Payment.Initiate.Authority.{IsAuthorised}
use mo_xx.Tests.{
  attempt_uuid, sample_claim, payment_http, order_uuid, granting_execution, command_uuid,
  payment_input, any_date,
}
use mo_xx.Preorder.Requests.Coercion.{
  parse_initiate_request-singleton, handle_initiate-escapes, initiate_request,
}
use mo_xx.Preorder.Http.{is_allowed, fault, accepts_length}
use mo_xx.Preorder.Checkout.{hold_service, Executor}
use mo_xx.Payment.Reconcile.{ReconcileDependencies}
use mo_xx.Payment.Initiate.{InitiateDependencies, Execution}
use mo_xx.Js.Value.{
  number, nil, end, str, null, is_positive_integer, field, cons, whole, strict_eq, prop, obj, arr,
  field_of, Value,
}
use mo_xx.Js.Text.{is_uuid_v5, fits, utf16_length, is_uuid}
use mo_xx.Js.Check.Inversion.{HasText}
use mo_xx.Js.Check.{accept, to_string, require_ok, throw, require, on_text, ok, ◌>>◌}
use mo_xx.Preorder.PaymentService
use mo_xx.Preorder.Checkout
use mo_xx.Payment.Initiate
use mo_xx.Shared.{arith, refl, true, some, All, ◌≡◌}
use mo_xx.Preorder.PaymentService.{handle_initiate, handle_reconcile}
use mo_xx.Preorder.Requests.{
  has_at, is_space, is_blank, check_contact, parse_order_request, parse_reconcile_request,
  parse_initiate_request, parse_hold_request,
}
use mo_xx.Preorder.Checkout.Answers.{handle_request-IsServed, IsServed}
use mo_xx.Preorder.PaymentService.Answers.{
  handle_reconcile-IsPermitted, IsReceived, handle_initiate-IsAuthorised,
}

abbrev deps : InitiateDependencies
deps = record {
  location_id = "LOC1";
  claim = λ input authority location. ok (granting_execution (sample_claim "initiate" null));
  deliver = λ command. throw "network";
  project = λ attempt claim_id evidence. ok (obj (field "receipt" evidence end));
}

handle_initiate-IsAuthorised_example :
    All
      (λ c.
        (input : Value) × IsReceived parse_initiate_request (payment_http payment_input) input
        × IsAuthorised input "Bearer x" deps c)
      (handle_initiate any_date deps (payment_http payment_input)).calls
handle_initiate-IsAuthorised_example =
    handle_initiate-IsAuthorised any_date (payment_http payment_input) deps

abbrev reconcile_input : Value
reconcile_input = obj (
    field "command_id" (str command_uuid) (
      field "order_id" (str order_uuid) (
        field "payment_attempt_id" (str attempt_uuid)
          (field "expected_order_version" (number (whole 3) "3") end))))

abbrev reconcile_deps : ReconcileDependencies
reconcile_deps = record {
  location_id = "LOC1";
  claim =
      λ input authority location. ok (granting_execution (sample_claim "reconcile" (str "PAY1")));
  retrieve = λ command. throw "network";
  project = λ attempt claim_id evidence. ok (obj (field "receipt" evidence end));
}

handle_reconcile-IsPermitted_example :
    All
      (λ c.
        (input : Value) × IsReceived parse_reconcile_request (payment_http reconcile_input) input
        × IsPermitted input "Bearer x" reconcile_deps c)
      (handle_reconcile any_date reconcile_deps (payment_http reconcile_input)).calls
handle_reconcile-IsPermitted_example =
    handle_reconcile-IsPermitted any_date (payment_http reconcile_input) reconcile_deps

abbrev hold_input : Value
hold_input = obj (
    field "command_id" (str command_uuid) (
      field "quote_id" (str order_uuid) (
        field "action" (str "create") (field "expected_quote_version" (number (whole 1) "1") end))))

hold_parses : parse_hold_request hold_input ≡ accept hold_input
unfolding parse_hold_request field_of strict_eq is_uuid_v5 on_text require require_ok ◌>>◌ to_string
hold_parses = refl

initiate_parses : parse_initiate_request payment_input ≡ accept payment_input
unfolding parse_initiate_request field_of is_uuid on_text require require_ok ◌>>◌ to_string
    utf16_length
initiate_parses = refl

abbrev executor : Executor
executor input authority = ok (record { admitted = true; result = input })

handle_request-IsServed_example :
    All
      (IsServed hold_service executor (payment_http hold_input))
      (Checkout.handle_request hold_service executor (payment_http hold_input)).calls
handle_request-IsServed_example =
    handle_request-IsServed hold_service executor (payment_http hold_input)

abbrev held : Execution
held = record { admitted = true; result = hold_input }

-- a request whose command identifier has its own "toString"
abbrev odd_input : Value
odd_input = initiate_request (obj (field "toString" (str "x") end)) order_uuid 3 "3" "cnon:card"

origin_allowed : is_allowed (some "https://preorder.dough.monster") ≡ true
unfolding is_allowed
origin_allowed = refl

length_accepted : accepts_length 8192 (whole 200) ≡ true
unfolding accepts_length
length_accepted = refl

handle_initiate-escapes_example :
    (handle_initiate any_date deps (payment_http odd_input)).outcome ≡ throw "TypeError"
handle_initiate-escapes_example =
    handle_initiate-escapes any_date deps (payment_http odd_input) order_uuid "3" "cnon:card" 3
      (str "x") origin_allowed refl length_accepted refl refl

odd_throws :
    (PaymentService.handle_request parse_initiate_request
      (fault "invalid_request" "The payment request is invalid.")
      (λ input authority. Initiate.orchestrate any_date input authority deps)
      (payment_http odd_input)).outcome
    ≡ throw "TypeError"
unfolding handle_initiate
odd_throws =
    handle_initiate-escapes any_date deps (payment_http odd_input) order_uuid "3" "cnon:card" 3
      (str "x") origin_allowed refl length_accepted refl refl

command_named : is_uuid command_uuid ≡ true
unfolding is_uuid
command_named = refl

order_named : is_uuid order_uuid ≡ true
unfolding is_uuid
order_named = refl

token_fits : fits 1 512 "cnon:card" ≡ true
unfolding utf16_length
token_fits = refl

parse_initiate_request-singleton_example :
    let v = initiate_request (arr (cons (str command_uuid) nil)) order_uuid 3 "3" "cnon:card" in
    parse_initiate_request v ≡ accept v
parse_initiate_request-singleton_example =
    parse_initiate_request-singleton command_uuid order_uuid "3" "cnon:card" 3 command_named
      order_named (ground arith) token_fits

abbrev order_input : Value
order_input = obj (
    field "command_id" (str command_uuid) (
      field "quote_id" (str order_uuid) (
        field "expected_quote_version" (number (whole 1) "1") (
          field "contact" (obj (field "name" (str "Ada") (field "phone" (str "3175550100") end)))
            end))))

order_parses : parse_order_request order_input ≡ accept order_input
unfolding parse_order_request check_contact field_of strict_eq is_uuid_v5 on_text require require_ok
    ◌>>◌ to_string utf16_length is_blank is_space has_at
order_parses = refl

parse_order_request-accepted_example :
    (order_input ≡ order_input)
    × HasText is_uuid (prop order_input "command_id")
    × HasText is_uuid (prop order_input "quote_id")
    × (is_positive_integer (prop order_input "expected_quote_version") ≡ true)
    × IsContact (prop order_input "contact")
parse_order_request-accepted_example =
    parse_order_request-accepted order_input order_input order_parses
