-- ===== src/Workers/Alerts/Presentation.antt =====
-- The validation of an order's presentation: src/is_valid_order_presentation.ts,
-- src/is_valid_order_item.ts and src/is_valid_order_modifier.ts of momi-order-alert-worker-v1.
use mo_xx.Js.Text.{fits}
use Prim.Native.Nat.{zero}
use Prim.Native.Char.{code}
use mo_xx.Js.Keys.{all_items, array_with}
use mo_xx.Js.Check.{null_or, text_with}
use mo_xx.Shared.{
  if◌then◌else◌, ◌==◌, ◌||◌, ◌===◌, ◌&&◌, suc, has, [], ◌∷◌, true, not, leb, false, ℕ, String, Bool,
  List,
}
use mo_xx.Js.Value.{
  infinite, only_keys, null, is_positive_integer, fraction, whole, undefined, field_of, obj, number,
  bool, Fields, Value,
}

-- `Number.isFinite(v) && v >= 0` of a number
unfoldable pub is_finite_count : Value → Bool
is_finite_count (number (whole n) t) = true
is_finite_count (number (fraction below n) t) = not below
is_finite_count v = false

-- `typeof v === "number" && v >= 0`, infinity included where its text has no sign
unfoldable pub is_count : Value → Bool
unfolding is_finite_count
is_count (number infinite t) = t === "Infinity"
is_count v = is_finite_count v

-- `Number.isInteger(v) && Number(v) >= 0`
abbrev pub is_natural : Value → Bool
is_natural (number (whole n) t) = true
is_natural v = false

abbrev pub is_filled : String → Bool
is_filled s = not (s === "")

-- `v === undefined || v === null || p(v)`
abbrev pub absent_or : (Value → Bool) → Value → Bool
absent_or p undefined = true
absent_or p null = true
absent_or p v = p v

abbrev undefined_in : Bool → Value → Bool
undefined_in b undefined = b
undefined_in b v = false

abbrev pub one_of : List String → Value → Bool
one_of allowed v = text_with (has allowed) v

unfoldable pub is_valid_order_modifier : Value → Bool
unfolding is_finite_count
is_valid_order_modifier (obj fs) =
    text_with is_filled (field_of fs "name")
    && is_finite_count (field_of fs "quantity")
    && is_positive_integer (field_of fs "depth")
is_valid_order_modifier v = false

unfoldable pub is_valid_order_item : Value → Bool
unfolding is_finite_count is_valid_order_modifier
is_valid_order_item (obj fs) =
    text_with is_filled (field_of fs "name")
    && is_finite_count (field_of fs "quantity")
    && array_with (all_items is_valid_order_modifier) (field_of fs "modifiers")
is_valid_order_item v = false

abbrev exact_presentation_keys : List String
exact_presentation_keys =
    "presentation_version" ∷ "display_number" ∷ "customer_label" ∷ "fulfillment_timing"
    ∷ "fulfillment_at" ∷ "fulfillment_epoch" ∷ "item_count" ∷ "total_amount" ∷ "items" ∷ []

abbrev pub timings : List String
timings = "scheduled" ∷ "asap" ∷ "unknown" ∷ []

-- /^[0-9a-f]{64}$/
abbrev pub is_low_hex : ℕ → Bool
is_low_hex c = (leb b'0' c && leb c b'9') || (leb b'a' c && leb c b'f')

unfoldable pub all_low_hex : ℕ → String → Bool
all_low_hex zero String.[] = true
all_low_hex zero (String.◌∷◌ c s) = false
all_low_hex (suc n) String.[] = false
all_low_hex (suc n) (String.◌∷◌ c s) = is_low_hex (code c) && all_low_hex n s

abbrev pub is_content_hash : String → Bool
is_content_hash s = all_low_hex 64 s

abbrev pub is_version : ℕ → Value → Bool
is_version n (number (whole m) t) = m == n
is_version n v = false

abbrev pub is_boolean : Value → Bool
is_boolean (bool b) = true
is_boolean v = false

module _ (date_finite : String → Bool) where
  abbrev pub is_date : Value → Bool
  is_date v = text_with date_finite v

  -- the presentation in the exact version, 2, or in the version before it
  unfoldable pub is_presentation : Bool → Fields → Bool
  unfolding is_finite_count is_valid_order_item
  is_presentation exact fs =
      (not exact || only_keys exact_presentation_keys fs)
      && is_version (if exact then 2 else 1) (field_of fs "presentation_version")
      && text_with (fits 1 80) (field_of fs "display_number")
      && absent_or (text_with (fits 1 200)) (field_of fs "customer_label")
      && (one_of timings (field_of fs "fulfillment_timing")
          || undefined_in (not exact) (field_of fs "fulfillment_timing"))
      && (undefined_in exact (field_of fs "fulfillment_at")
          || null_or is_date (field_of fs "fulfillment_at"))
      && (undefined_in exact (field_of fs "fulfillment_epoch")
          || null_or is_natural (field_of fs "fulfillment_epoch"))
      && is_finite_count (field_of fs "item_count")
      && null_or is_finite_count (field_of fs "total_amount")
      && array_with (all_items is_valid_order_item) (field_of fs "items")

  unfoldable pub is_valid_order_presentation : Bool → Value → Bool
  unfolding is_presentation
  is_valid_order_presentation exact (obj fs) = is_presentation exact fs
  is_valid_order_presentation exact v = false
