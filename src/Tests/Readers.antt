-- ===== src/Tests/Readers.antt =====
-- The quote, the contribution and the order status, at concrete values.
use mo_xx.Payment.Initiate.{Execution}
use mo_xx.Preorder.Quote.Versions.{merged_versions}
use mo_xx.Js.Keys.{join_keys, insert_key, sort_keys, sorted_keys}
use mo_xx.Preorder.Quote.Lines.{parse_quote_request-IsCart, IsCart}
use mo_xx.Preorder.Contribution.Unchanged.{compare_context_iff, IsUnchanged}
use mo_xx.Tests.{attempt_uuid, command_uuid, order_uuid}
use mo_xx.Js.Text.{is_uuid_v5}
use mo_xx.Preorder.Quote.{is_line, are_lines, are_allergens, are_versions, parse_quote_request}
use mo_xx.Preorder.OrderStatus.Answers.{handle_status-IsShown, IsShown}
use mo_xx.Preorder.OrderStatus.{handle_status, StatusReader}
use mo_xx.Preorder.Http.{content, respond, Request}
use mo_xx.Preorder.Contribution.{compare_context, Clockwork}
use mo_xx.Js.Value.{
  nil, cons, arr, number, end, str, is_positive_integer, whole, strict_eq, prop, field, obj,
  field_of, Value,
}
use mo_xx.Js.Check.Inversion.{IsText}
use mo_xx.Js.Check.{to_string, Exc, accept, require, throw, ok, ◌>>◌}
use mo_xx.Shared.{refl, ◌↔◌, true, some, none, [], ◌≡◌}

abbrev cart_line : Value
cart_line = obj (
    field "line_id" (str command_uuid) (
      field "item_id" (str order_uuid) (
        field "item_version" (number (whole 1) "1")
          (field "quantity" (number (whole 2) "2") (field "choice_ids" (arr nil) end)))))

abbrev quote_input : Value
quote_input = obj (
    field "command_id" (str command_uuid) (
      field "surface_id" (str order_uuid) (
        field "fulfillment_window_id" (str attempt_uuid) (
          field "cart_version" (number (whole 1) "1") (
            field "versions" (merged_versions 4 "4") (
              field "avoided_allergens" (arr (cons (str "milk") nil))
                (field "lines" (arr (cons cart_line nil)) end)))))))

quote_parses : parse_quote_request quote_input ≡ accept quote_input
unfolding parse_quote_request are_versions are_allergens are_lines is_line sorted_keys sort_keys
    insert_key join_keys field_of strict_eq is_uuid_v5 require ◌>>◌
quote_parses = refl

parse_quote_request-IsCart_example :
    (quote_input ≡ quote_input)
    × IsText is_uuid_v5 (prop quote_input "command_id")
    × IsText is_uuid_v5 (prop quote_input "surface_id")
    × IsText is_uuid_v5 (prop quote_input "fulfillment_window_id")
    × (is_positive_integer (prop quote_input "cart_version") ≡ true)
    × IsCart (prop quote_input "lines")
parse_quote_request-IsCart_example = parse_quote_request-IsCart quote_input quote_input quote_parses

abbrev clockwork : Clockwork
clockwork = record { stringify = λ v. v; date_of = λ v. some 500; now = 400 }

abbrev selection : Value
selection = obj (
    field "campaign_ref" (str "c") (
      field "fulfillment_ref" (obj (field "resource_id" (str order_uuid) end)) (
        field "fulfillment_evidence" (obj (field "pickup_date" (str "2026-11-30") end)) (
          field "valid_until" (str "2026-12-01") (
            field "pricing" (obj (field "deposit_rule" (str "full_payment_at_checkout") end))
              end)))))

compare_context_iff_example :
    (compare_context clockwork selection selection ≡ ok [])
    ↔ IsUnchanged clockwork selection selection
compare_context_iff_example = compare_context_iff clockwork selection selection

selection_unchanged : compare_context clockwork selection selection ≡ ok []
unfolding compare_context field_of strict_eq to_string
selection_unchanged = refl

abbrev reader : StatusReader
reader order_id authority = ok (record { admitted = true; data_value = selection })

abbrev status_http : Request
status_http = record {
  method = "GET";
  origin = none;
  authority = some "a";
  content_length = whole 0;
  body_length = 0;
  json = throw "SyntaxError";
}

status_shown :
    (handle_status reader status_http (some order_uuid)).outcome
    ≡ ok (respond status_http 200 (content selection))
unfolding handle_status is_uuid_v5
status_shown = refl

handle_status-IsShown_example : IsShown reader status_http (some order_uuid)
handle_status-IsShown_example =
    handle_status-IsShown reader status_http (some order_uuid)
      (respond status_http 200 (content selection)) status_shown refl

abbrev creator : Value → Exc Execution
creator input = ok (record { admitted = true; result = obj (field "outcome" (str "created") end) })

abbrev quoted : Execution
quoted = record { admitted = true; result = quote_input }
