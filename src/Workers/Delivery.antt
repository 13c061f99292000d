-- ===== src/Workers/Delivery.antt =====
-- A delivery of an event, as warehouse-projection/functions/momi-warehouse-projection-worker-v1
-- takes it: src/types.ts and src/parse_request.ts.
use mo_xx.Js.Check.{text_with}
use mo_xx.Shared.{
  some, none, length, ◌||◌, not, ◌==◌, ◌++◌, ◌&&◌, if◌then◌else◌, true, leb, false, [], ◌∷◌,
  replicate, Option, Bool, ℕ, String, List,
}
use mo_xx.Js.Value.{only_keys, keys, obj, field_of, as_text, Value, Fields}
use Prim.Native.Char.{code}
use mo_xx.Js.Text.{dash, hex, Class, matches}

pub record DeliveryTrigger : Type 0 where
  pub event_id : String
  pub message_id : String
  pub capability_token : String

-- /^[0-9a-f]{8}-[0-9a-f]{4}-[0-9a-f]{4}-[0-9a-f]{4}-[0-9a-f]{12}$/i
abbrev pub any_uuid_pattern : List Class
any_uuid_pattern =
    replicate 8 hex
    ++ dash ∷ replicate 4 hex
    ++ dash ∷ replicate 4 hex
    ++ dash ∷ replicate 4 hex
    ++ dash ∷ replicate 12 hex

unfoldable pub is_any_uuid : String → Bool
is_any_uuid s = matches any_uuid_pattern s

is_digit : ℕ → Bool
is_digit c = leb b'0' c && leb c b'9'

unfoldable pub all_digits : String → Bool
unfolding is_digit
all_digits String.[] = true
all_digits (String.◌∷◌ c s) = is_digit (code c) && all_digits s

-- /^[1-9][0-9]*$/
unfoldable pub is_positive_decimal : String → Bool
unfolding all_digits
is_positive_decimal String.[] = false
is_positive_decimal (String.◌∷◌ c s) = leb b'1' (code c) && leb (code c) b'9' && all_digits s

code_letter : ℕ → Bool
unfolding is_digit
code_letter c = (leb b'a' c && leb c b'z') || is_digit c || c == b'_'

unfoldable pub all_code : String → Bool
unfolding code_letter
all_code String.[] = true
all_code (String.◌∷◌ c s) = code_letter (code c) && all_code s

-- /^[a-z0-9_]+$/
unfoldable pub is_error_code : String → Bool
unfolding all_code
is_error_code String.[] = false
is_error_code (String.◌∷◌ c s) = all_code (String.◌∷◌ c s)

-- `^prefix` followed by what `rest` admits
unfoldable pub after_prefix : String → (String → Bool) → String → Bool
after_prefix String.[] rest s = rest s
after_prefix (String.◌∷◌ p ps) rest String.[] = false
after_prefix (String.◌∷◌ p ps) rest (String.◌∷◌ c s) = (code p == code c) && after_prefix ps rest s

-- `keys.length !== 3 || keys.some(...)` is false
abbrev pub delivery_keys : List String
delivery_keys = "event_id" ∷ "message_id" ∷ "capability_token" ∷ []

abbrev trigger_of : Fields → DeliveryTrigger
trigger_of fs = record {
  event_id = as_text (field_of fs "event_id");
  message_id = as_text (field_of fs "message_id");
  capability_token = as_text (field_of fs "capability_token");
}

unfoldable pub parse_delivery_trigger : Value → Option DeliveryTrigger
unfolding is_any_uuid is_positive_decimal
parse_delivery_trigger (obj fs) =
    if not (length (keys fs) == 3) || not (only_keys delivery_keys fs)
    then none
    else if not (text_with is_any_uuid (field_of fs "event_id"))
    then none
    else if not (text_with is_positive_decimal (field_of fs "message_id"))
    then none
    else if not (text_with is_any_uuid (field_of fs "capability_token"))
    then none
    else some (trigger_of fs)
parse_delivery_trigger _ = none
