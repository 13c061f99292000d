-- ===== src/Preorder/Requests.antt =====
-- The parsers of the requests: momi-preorder-checkout-hold-v1, momi-preorder-order-intent-v1,
-- momi-preorder-payment-initiate-v1 and momi-preorder-payment-reconcile-v1, each src/parse_request.ts.
pub mod Coercion
pub mod Admission
use mo_xx.Js.Text.{fits, utf16_length, is_uuid_v5, is_uuid}
use mo_xx.Shared.{
  has, any, ◌||◌, not, ◌==◌, ◌&&◌, true, leb, if◌then◌else◌, false, [], ◌∷◌, Bool, ℕ, String, List,
}
use mo_xx.Js.Value.{
  prop, is_positive_integer, field_of, str, undefined, strict_eq, only_keys, is_object, obj, Value,
}
use Prim.Native.String
use Prim.Native.Char.{code}
use mo_xx.Js.Check.{reject, on_text, text_with, require, accept, Check, ◌>>◌}

abbrev is_undefined : Value → Bool
is_undefined undefined = true
is_undefined v = false

abbrev undefined_or : (Value → Bool) → Value → Bool
undefined_or p undefined = true
undefined_or p v = p v

-- What `trim` takes off.
abbrev white_space : List ℕ
white_space = 5760 ∷ 8232 ∷ 8233 ∷ 8239 ∷ 8287 ∷ 12288 ∷ 65279 ∷ 160 ∷ 32 ∷ []

unfoldable pub is_space : ℕ → Bool
is_space c = (leb 9 c && leb c 13) || (leb 8192 c && leb c 8202) || any (λ d. d == c) white_space

-- `s.trim().length < 1`
unfoldable pub is_blank : String → Bool
unfolding is_space
is_blank String.[] = true
is_blank (String.◌∷◌ c s) = is_space (code c) && is_blank s

-- `s.includes("@")`
unfoldable pub has_at : String → Bool
has_at String.[] = false
has_at (String.◌∷◌ c s) = code c == b'@' || has_at s

abbrev hold_keys : List String
hold_keys = "action" ∷ "command_id" ∷ "expected_quote_version" ∷ "hold_id" ∷ "quote_id" ∷ []

abbrev hold_actions : List String
hold_actions = "create" ∷ "recover" ∷ "expire" ∷ "release" ∷ []

-- a hold names its identifier unless it is made
abbrev require_hold_id : Value → Value → Check (Unit {0})
require_hold_id action hold_id =
    if strict_eq action (str "create")
    then require (is_undefined hold_id)
    else on_text is_uuid_v5 hold_id

unfoldable pub parse_hold_request : Value → Check Value
parse_hold_request (obj fs) = do
  require (only_keys hold_keys fs)
  on_text is_uuid_v5 (field_of fs "command_id")
  on_text is_uuid_v5 (field_of fs "quote_id")
  on_text (has hold_actions) (field_of fs "action")
  require (is_positive_integer (field_of fs "expected_quote_version"))
  require_hold_id (field_of fs "action") (field_of fs "hold_id")
  accept (obj fs)
parse_hold_request _ = reject

abbrev order_keys : List String
order_keys = "command_id" ∷ "contact" ∷ "expected_quote_version" ∷ "hold_id" ∷ "quote_id" ∷ []

abbrev contact_keys : List String
contact_keys = "email" ∷ "name" ∷ "phone" ∷ []

abbrev has_only_keys : List String → Value → Bool
has_only_keys allowed (obj fs) = only_keys allowed fs
has_only_keys allowed _ = false

abbrev is_text : Value → Bool
is_text v = text_with (λ s. true) v

abbrev is_optional_uuid : Value → Check (Unit {0})
is_optional_uuid undefined = accept tt
is_optional_uuid v = on_text is_uuid_v5 v

-- the tests of the contact, in the order of the source
unfoldable pub check_contact : Value → Check (Unit {0})
unfolding is_blank has_at
check_contact c =
    require (is_object c)
    >> (require (text_with (λ s. not (is_blank s) && leb (utf16_length s) 120) (prop c "name"))
        >> (require (has_only_keys contact_keys c)
            >> (require (is_text (prop c "email") || is_text (prop c "phone"))
                >> (require (undefined_or is_text (prop c "email"))
                    >> (require (undefined_or is_text (prop c "phone"))
                        >> (require (
                              undefined_or (text_with (λ s. leb (utf16_length s) 254 && has_at s))
                                (prop c "email"))
                            >> require (undefined_or (text_with (fits 7 32)) (prop c "phone"))))))))

unfoldable pub parse_order_request : Value → Check Value
unfolding check_contact
parse_order_request (obj fs) = do
  require (only_keys order_keys fs)
  on_text is_uuid_v5 (field_of fs "command_id")
  on_text is_uuid_v5 (field_of fs "quote_id")
  is_optional_uuid (field_of fs "hold_id")
  require (is_positive_integer (field_of fs "expected_quote_version"))
  check_contact (field_of fs "contact")
  accept (obj fs)
parse_order_request _ = reject

abbrev initiate_keys : List String
initiate_keys = "command_id" ∷ "order_id" ∷ "expected_order_version" ∷ "source_token" ∷ []

unfoldable pub parse_initiate_request : Value → Check Value
parse_initiate_request (obj fs) = do
  require (only_keys initiate_keys fs)
  on_text is_uuid (field_of fs "command_id")
  on_text is_uuid (field_of fs "order_id")
  require (is_positive_integer (field_of fs "expected_order_version"))
  require (text_with (fits 1 512) (field_of fs "source_token"))
  accept (obj fs)
parse_initiate_request _ = reject

abbrev reconcile_keys : List String
reconcile_keys = "command_id" ∷ "order_id" ∷ "expected_order_version" ∷ "payment_attempt_id" ∷ []

unfoldable pub parse_reconcile_request : Value → Check Value
parse_reconcile_request (obj fs) = do
  require (only_keys reconcile_keys fs)
  on_text is_uuid (field_of fs "command_id")
  on_text is_uuid (field_of fs "order_id")
  on_text is_uuid (field_of fs "payment_attempt_id")
  require (is_positive_integer (field_of fs "expected_order_version"))
  accept (obj fs)
parse_reconcile_request _ = reject
