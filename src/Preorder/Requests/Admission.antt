-- ===== src/Preorder/Requests/Admission.antt =====
-- What a request that is accepted says.
use mo_xx.Js.Text.Length.{is_uuid_of_v5}
use mo_xx.Js.Text.{utf16_length, is_uuid_v5, fits, is_uuid}
use mo_xx.Js.Check.{text_with, Check, accept}
use mo_xx.Js.Value.{field_of, obj, is_positive_integer, prop, Value}
use mo_xx.Preorder.Requests.{
  has_at, undefined_or, is_text, is_optional_uuid, is_blank, parse_order_request, check_contact,
  require_hold_id, hold_actions, parse_initiate_request, parse_hold_request,
}
use mo_xx.Js.Check.{◌>>◌}
use mo_xx.Shared.{◌||◌, leb, ◌&&◌, not, has, true, Bool, String, ◌≡◌}
use mo_xx.Js.Check.Inversion.{
  require-eq-true, >>-eq-accept, HasText, IsText, require-eq-accept, on_text-eq-accept,
  text_with-eq-true,
}

HasText-widen :
    (p q : String → Bool) (v : Value)
    → ((s : String) → p s ≡ true → q s ≡ true)
    → HasText p v
    → HasText q v
HasText-widen p q v f (s, read, h) = (s, read, f s h)

-- A hold request that is accepted is passed on as it came. Its command and its quote read as UUIDs that
-- the payment functions accept too, its action is one of the four, and its quote version is a positive
-- integer.
pub parse_hold_request-accepted :
    (v input : Value)
    → parse_hold_request v ≡ accept input
    → (v ≡ input)
      × HasText is_uuid (prop v "command_id")
      × HasText is_uuid (prop v "quote_id")
      × HasText (has hold_actions) (prop v "action")
      × (is_positive_integer (prop v "expected_quote_version") ≡ true)
unfolding parse_hold_request
parse_hold_request-accepted (obj fs) input h =
    let (_, h) = require-eq-accept _ _ h in
    let (c, h) = on_text-eq-accept _ _ _ h in
    let (q, h) = on_text-eq-accept _ _ _ h in
    let (a, h) = on_text-eq-accept _ _ _ h in
    let (n, h) = require-eq-accept _ _ h in
    let (_, same) =
      >>-eq-accept (require_hold_id (field_of fs "action") (field_of fs "hold_id"))
        (accept (obj fs)) h in
    (
      cc,
      HasText-widen is_uuid_v5 is_uuid _ is_uuid_of_v5 c,
      HasText-widen is_uuid_v5 is_uuid _ is_uuid_of_v5 q,
      a,
      n,
    )
parse_hold_request-accepted v input h = cc

-- A payment request that is accepted is passed on as it came: its command and its order read as
-- UUIDs, its order version is a positive integer, and its source token is a text of 1 to 512 units.
pub parse_initiate_request-accepted :
    (v input : Value)
    → parse_initiate_request v ≡ accept input
    → (v ≡ input)
      × HasText is_uuid (prop v "command_id")
      × HasText is_uuid (prop v "order_id")
      × (is_positive_integer (prop v "expected_order_version") ≡ true)
      × IsText (fits 1 512) (prop v "source_token")
unfolding parse_initiate_request
parse_initiate_request-accepted (obj fs) input h =
    let (_, h) = require-eq-accept _ _ h in
    let (c, h) = on_text-eq-accept _ _ _ h in
    let (o, h) = on_text-eq-accept _ _ _ h in
    let (n, h) = require-eq-accept _ _ h in
    let (t, h) = require-eq-accept _ _ h in
    let same : obj fs ≡ input = cc in (same, c, o, n, text_with-eq-true _ _ t)
parse_initiate_request-accepted v input h = cc

-- The contact of an order: a name that is not blank, and an e-mail address or a telephone number.
pub record IsContact (c : Value) : Type 0 where
  pub name : IsText (λ s. not (is_blank s) && leb (utf16_length s) 120) (prop c "name")
  pub reachable : (is_text (prop c "email") || is_text (prop c "phone")) ≡ true
  pub email :
      undefined_or (text_with (λ s. leb (utf16_length s) 254 && has_at s)) (prop c "email") ≡ true
  pub phone : undefined_or (text_with (fits 7 32)) (prop c "phone") ≡ true

check_contact-IsContact :
    {A : Type 0} {a : A} (c : Value) (k : Check A)
    → (check_contact c >> k) ≡ accept a
    → IsContact c × (k ≡ accept a)
unfolding check_contact
check_contact-IsContact c k h =
    let (held, rest) = >>-eq-accept (check_contact c) k h in
    let (_, h) = require-eq-accept _ _ held in
    let (name, h) = require-eq-accept _ _ h in
    let (_, h) = require-eq-accept _ _ h in
    let (reachable, h) = require-eq-accept _ _ h in
    let (_, h) = require-eq-accept _ _ h in
    let (_, h) = require-eq-accept _ _ h in
    let (email, h) = require-eq-accept _ _ h in
    let phone = require-eq-true _ h in
    (
      record {
        name = text_with-eq-true _ _ name;
        reachable = reachable;
        email = email;
        phone = phone;
      },
      rest,
    )

-- An order request that is accepted is passed on as it came: its command and its quote read as
-- UUIDs, its quote version is a positive integer, and its contact has a name of at most 120 units
-- that is not blank and an e-mail address or a telephone number; an address has an "@" and at most
-- 254 units, and a number 7 to 32 units.
pub parse_order_request-accepted :
    (v input : Value)
    → parse_order_request v ≡ accept input
    → (v ≡ input)
      × HasText is_uuid (prop v "command_id")
      × HasText is_uuid (prop v "quote_id")
      × (is_positive_integer (prop v "expected_quote_version") ≡ true)
      × IsContact (prop v "contact")
unfolding parse_order_request
parse_order_request-accepted (obj fs) input h =
    let (_, h) = require-eq-accept _ _ h in
    let (c, h) = on_text-eq-accept _ _ _ h in
    let (q, h) = on_text-eq-accept _ _ _ h in
    let (_, h1) = >>-eq-accept (is_optional_uuid (field_of fs "hold_id")) _ h in
    let (n, h) = require-eq-accept _ _ h1 in
    let (contact, h) = check_contact-IsContact (field_of fs "contact") (accept (obj fs)) h in
    let same : obj fs ≡ input = cc in
    (
      same,
      HasText-widen is_uuid_v5 is_uuid _ is_uuid_of_v5 c,
      HasText-widen is_uuid_v5 is_uuid _ is_uuid_of_v5 q,
      n,
      contact,
    )
parse_order_request-accepted v input h = cc
