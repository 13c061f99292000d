-- ===== src/Preorder/Quote/Lines.antt =====
-- What a quote request that is accepted says of its cart.
use mo_xx.Js.Text.{is_uuid_v5}
use mo_xx.Js.Keys.{map_items, are_distinct, count_items, all_items}
use mo_xx.Js.Check.Inversion.{require-eq-accept, text_with-eq-true, IsText}
use mo_xx.Js.Check.{accept}
use mo_xx.Preorder.Quote.{line_id, is_between, parse_quote_request, is_line, are_lines}
use mo_xx.Js.Value.{
  is_positive_integer, prop, field_of, whole, nil, obj, number, cons, arr, Items, Value,
}
use mo_xx.Shared.{refl, leb→le, arith, ◌≤◌, &&-eq-true, true, String, Bool, ℕ, ◌≡◌}

-- The items of a list, each with a property.
abbrev pub Each : (Value → Type 0) → Items → Type 0
Each P nil = Unit {0}
Each P (cons x xs) = P x × Each P xs

all_items-Each :
    (p : Value → Bool) (P : Value → Type 0) (xs : Items)
    → ((v : Value) → p v ≡ true → P v)
    → all_items p xs ≡ true
    → Each P xs
all_items-Each p P nil f h = tt
all_items-Each p P (cons x xs) f h =
    let (a, b) = &&-eq-true _ _ h in (f x a, all_items-Each p P xs f b)

-- A line of the cart: identifiers, and a whole quantity from 1 to 100.
pub record IsLine (v : Value) : Type 0 where
  pub quantity : ℕ
  pub spelling : String
  pub line_id : IsText is_uuid_v5 (prop v "line_id")
  pub item_id : IsText is_uuid_v5 (prop v "item_id")
  pub quantified : prop v "quantity" ≡ number (whole quantity) spelling
  pub low : 1 ≤ quantity
  pub high : quantity ≤ 100

is_between-bounds :
    (low high : ℕ) (v : Value)
    → is_between low high v ≡ true
    → (n : ℕ) × (t : String) × (v ≡ number (whole n) t) × (low ≤ n) × (n ≤ high)
is_between-bounds low high (number (whole n) t) h = (n, t, refl, ground arith, ground arith)
is_between-bounds low high v h = cc

is_line-IsLine : (v : Value) → is_line v ≡ true → IsLine v
unfolding is_line
is_line-IsLine (obj fs) h =
    let (h1, _) = &&-eq-true _ _ h in
    let (h2, q) = &&-eq-true _ _ h1 in
    let (h3, _) = &&-eq-true _ _ h2 in
    let (h4, i) = &&-eq-true _ _ h3 in
    let (_, l) = &&-eq-true _ _ h4 in
    let (n, t, same, low, high) = is_between-bounds 1 100 (field_of fs "quantity") q in
    record {
      quantity = n;
      spelling = t;
      line_id = text_with-eq-true _ _ l;
      item_id = text_with-eq-true _ _ i;
      quantified = same;
      low = low;
      high = high;
    }
is_line-IsLine v h = cc

-- The cart of a request: from 1 to 50 lines, no two with the same identifier.
pub record IsCart (v : Value) : Type 0 where
  pub items : Items
  pub listed : v ≡ arr items
  pub some_line : 1 ≤ count_items items
  pub not_many : count_items items ≤ 50
  pub distinct : are_distinct (map_items line_id items) ≡ true
  pub lines : Each IsLine items

are_lines-IsCart : (v : Value) → are_lines v ≡ true → IsCart v
unfolding are_lines
are_lines-IsCart (arr xs) h =
    let (h1, e) = &&-eq-true _ _ h in
    let (h2, d) = &&-eq-true _ _ h1 in
    let (a, b) = &&-eq-true _ _ h2 in
    record {
      items = xs;
      listed = refl;
      some_line = leb→le _ _ a;
      not_many = leb→le _ _ b;
      distinct = d;
      lines = all_items-Each is_line IsLine xs is_line-IsLine e;
    }
are_lines-IsCart v h = cc

-- A quote request that is accepted is passed on as it came; its command, surface and window are
-- UUIDs, its cart version is a positive integer, and its cart has from 1 to 50 lines with distinct
-- identifiers, each with the UUIDs of the line and of the item and a whole quantity from 1 to 100.
pub parse_quote_request-IsCart :
    (v input : Value)
    → parse_quote_request v ≡ accept input
    → (v ≡ input)
      × IsText is_uuid_v5 (prop v "command_id")
      × IsText is_uuid_v5 (prop v "surface_id")
      × IsText is_uuid_v5 (prop v "fulfillment_window_id")
      × (is_positive_integer (prop v "cart_version") ≡ true)
      × IsCart (prop v "lines")
unfolding parse_quote_request
parse_quote_request-IsCart (obj fs) input h =
    let (_, h) = require-eq-accept _ _ h in
    let (c, h) = require-eq-accept _ _ h in
    let (s, h) = require-eq-accept _ _ h in
    let (f, h) = require-eq-accept _ _ h in
    let (n, h) = require-eq-accept _ _ h in
    let (_, h) = require-eq-accept _ _ h in
    let (_, h) = require-eq-accept _ _ h in
    let (l, h) = require-eq-accept _ _ h in
    let same : obj fs ≡ input = cc in
    (
      same,
      text_with-eq-true _ _ c,
      text_with-eq-true _ _ s,
      text_with-eq-true _ _ f,
      n,
      are_lines-IsCart _ l,
    )
parse_quote_request-IsCart v input h = cc
