-- ===== src/Preorder/Quote.antt =====
-- momi-preorder-quote-v1: src/parse_request.ts and src/handle_request_with_creator.ts.
pub mod Versions
pub mod Answers
pub mod Lines
use mo_xx.Js.Text.{is_uuid_v5}
use mo_xx.Square.Types.{or_null}
use mo_xx.Shared.{
  has, false, ◌&&◌, not, none, leb, [], ◌∷◌, ◌===◌, some, if◌then◌else◌, String, Bool, ℕ, List,
}
use mo_xx.Preorder.Http.{
  content, error, text, failure, empty, with_retry_after, Request, retry_later, fault, Response,
  Body, Failure,
}
use mo_xx.Payment.Initiate.{Execution}
use mo_xx.Js.Value.{
  end, field, str, strict_eq, is_truthy, is_positive_integer, whole, null, prop, number, field_of,
  obj, Value,
}
use mo_xx.Js.Keys.{
  map_items, count_items, all_values, all_items, are_distinct, array_with, join_keys, sorted_keys,
}
use mo_xx.Js.Effect.{call, fail, pure, Effect, ◌>>=◌}
use mo_xx.Js.Check.{ok, throw, reject, raise, accept, text_with, require, Check, Exc, ◌>>◌}

abbrev allergens : List String
allergens = "milk" ∷ "egg" ∷ "peanuts" ∷ "tree_nuts" ∷ "wheat" ∷ "soy" ∷ "sesame" ∷ []

abbrev quote_keys : List String
quote_keys =
    "avoided_allergens" ∷ "cart_version" ∷ "command_id" ∷ "fulfillment_window_id" ∷ "lines"
    ∷ "surface_id" ∷ "versions" ∷ []

abbrev version_keys : List String
version_keys = "catalog_version" ∷ "mapping_version" ∷ "policy_version" ∷ "surface_version" ∷ []

abbrev line_keys : List String
line_keys = "choice_ids" ∷ "item_id" ∷ "item_version" ∷ "line_id" ∷ "quantity" ∷ []

-- the test of the versions
unfoldable pub are_versions : Value → Bool
unfolding sorted_keys join_keys
are_versions (obj fs) =
    sorted_keys fs === join_keys version_keys && all_values is_positive_integer fs
are_versions _ = false

-- a list of texts, each once
unfoldable pub are_allergens : Value → Bool
are_allergens v = array_with (λ xs. are_distinct xs && all_items (text_with (has allergens)) xs) v

-- a whole number within bounds
abbrev is_between : ℕ → ℕ → Value → Bool
is_between low high (number (whole n) t) = leb low n && leb n high
is_between low high _ = false

-- one line of the cart
unfoldable pub is_line : Value → Bool
unfolding sorted_keys join_keys
is_line (obj fs) =
    sorted_keys fs === join_keys line_keys
    && text_with is_uuid_v5 (field_of fs "line_id")
    && text_with is_uuid_v5 (field_of fs "item_id")
    && is_positive_integer (field_of fs "item_version")
    && is_between 1 100 (field_of fs "quantity")
    && array_with (λ xs. are_distinct xs && all_items (text_with is_uuid_v5) xs)
        (field_of fs "choice_ids")
is_line _ = false

-- the identifier of a line, or null of what is no object
abbrev line_id : Value → Value
line_id (obj fs) = field_of fs "line_id"
line_id _ = null

unfoldable pub are_lines : Value → Bool
unfolding is_line
are_lines v =
    array_with
      (λ xs.
        leb 1 (count_items xs)
        && leb (count_items xs) 50
        && are_distinct (map_items line_id xs)
        && all_items is_line xs)
      v

unfoldable pub parse_quote_request : Value → Check Value
unfolding are_versions are_allergens are_lines sorted_keys join_keys
parse_quote_request (obj fs) = do
  require (sorted_keys fs === join_keys quote_keys)
  require (text_with is_uuid_v5 (field_of fs "command_id"))
  require (text_with is_uuid_v5 (field_of fs "surface_id"))
  require (text_with is_uuid_v5 (field_of fs "fulfillment_window_id"))
  require (is_positive_integer (field_of fs "cart_version"))
  require (are_versions (field_of fs "versions"))
  require (are_allergens (field_of fs "avoided_allergens"))
  require (are_lines (field_of fs "lines"))
  accept (obj fs)
parse_quote_request _ = reject

abbrev invalid_quote : Failure
invalid_quote = fault "invalid_request" "The quote request is invalid."

abbrev quote_unavailable : Failure
quote_unavailable = retry_later "not_found" "Quoting is temporarily unavailable."

-- A response of this function allows every origin.
abbrev reply : ℕ → Body → Response
reply status body = record {
  status = status;
  body = body;
  allow_origin = some "*";
  retry_after = none;
}

-- the `quote` of a result, or null
abbrev quote_of : Value → Value
quote_of result = or_null (prop result "quote")

-- the answer to what the creator returns
unfoldable pub answer : Execution → Response
answer e =
    if not e.admitted
    then with_retry_after
        (reply 429 (failure (retry_later "rate_limited" "Too many quote requests were received.")))
    else if not (is_truthy e.result)
    then reply 503 (failure quote_unavailable)
    else if is_truthy (prop e.result "error")
    then reply (if strict_eq (prop e.result "outcome") (str "conflict") then 409 else 422)
        (error (prop e.result "error"))
    else reply 200 (
        content
          (obj (field "outcome" (prop e.result "outcome") (field "quote" (quote_of e.result) end))))

unfoldable pub create_parsed : (Value → Exc Execution) → Check Value → Effect Value Response
unfolding answer
create_parsed creator reject = pure (reply 400 (failure invalid_quote))
create_parsed creator (raise e) = fail e
create_parsed creator (accept input) = call input (ok (creator input)) >>= λ created. elim created [
  | ok e ↦ pure (answer e)
  | throw e ↦ pure (reply 503 (failure quote_unavailable))
]

-- the body, or the `catch` of its parsing
abbrev with_body : (Value → Exc Execution) → Exc Value → Effect Value Response
with_body creator (throw e) = pure (reply 400 (failure invalid_quote))
with_body creator (ok raw) = create_parsed creator (parse_quote_request raw)

-- the calls of the creator are logged by their input
unfoldable pub handle_request : (Value → Exc Execution) → Request → Effect Value Response
unfolding create_parsed parse_quote_request
handle_request creator request =
    if request.method === "OPTIONS"
    then pure (reply 204 empty)
    else if not (request.method === "POST")
    then pure (reply 405 (text "method not allowed"))
    else with_body creator request.json
