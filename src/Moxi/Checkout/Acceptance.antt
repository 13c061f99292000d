-- ===== src/Moxi/Checkout/Acceptance.antt =====
-- The requests of a checkout, as the functions of MoMi that they go to read them: the bodies that
-- checkout.ts builds, under parse_hold_request, parse_order_request and parse_initiate_request.
use mathlib.Core.Option.{none}
use mo_xx.Moxi.Checkout.Prepare.{payment_body, order_body, hold_body, contact_value}
use mo_xx.Js.Value.{strict_eq, str, field_of}
use mo_xx.Shared.{
  inr, inl, ◌===◌, Bool-cases, refl, le→leb, some, true, Option, ◌∙◌, leb, String, ◌≡◌, ◌&&◌, ◌≤◌,
  not,
}
use mo_xx.Moxi.Checkout.{
  Quote, PreparedCheckout, CheckoutCommands, CheckoutInput, CheckoutDependencies,
}
use mo_xx.Js.Check.Inversion.{HasText-str, on_text-pass, require-pass}
use mo_xx.Js.Check.{require, Check, accept}
use mo_xx.Js.Text.{utf16_length, fits, is_uuid, is_uuid_v5}
use mo_xx.Preorder.Requests.{
  has_at, is_blank, parse_hold_request, parse_initiate_request, parse_order_request, check_contact,
}
use mo_xx.Js.Check.{◌>>◌}

-- What the functions ask of a customer's details.
pub record IsReachable (input : CheckoutInput) : Type 0 where
  pub name : (not (is_blank input.full_name) && leb (utf16_length input.full_name) 120) ≡ true
  pub email : (leb (utf16_length input.email) 254 && has_at input.email) ≡ true
  pub phone : fits 7 32 input.phone ≡ true

after_accept : {A : Type 0} {c : Check (Unit {0})} (k : Check A) → c ≡ accept tt → (c >> k) ≡ k
unfolding ◌>>◌
after_accept k e = rw e refl

module _ (deps : CheckoutDependencies) where
  -- The payment request is accepted as it is, if its identifiers are UUIDs, the order version is
  -- positive and the token has 1 to 512 units.
  pub payment_body-accepted :
      (checkout : PreparedCheckout) (token : String)
      → is_uuid checkout.payment_command_id ≡ true
      → is_uuid checkout.order_id ≡ true
      → 1 ≤ checkout.order_version
      → fits 1 512 token ≡ true
      → parse_initiate_request (payment_body deps checkout token)
        ≡ accept (payment_body deps checkout token)
  unfolding parse_initiate_request field_of payment_body
  payment_body-accepted checkout token c o n t =
      require-pass _ refl
      ∙ on_text-pass _ is_uuid (str checkout.payment_command_id) (HasText-str is_uuid _ c)
      ∙ on_text-pass _ is_uuid (str checkout.order_id) (HasText-str is_uuid _ o)
      ∙ require-pass _ (le→leb 1 checkout.order_version n)
      ∙ require-pass _ t

  pub hold_body-accepted :
      (commands : CheckoutCommands) (q : Quote)
      → is_uuid_v5 commands.hold_command_id ≡ true
      → is_uuid_v5 q.summary.quote_id ≡ true
      → 1 ≤ q.summary.quote_version
      → parse_hold_request (hold_body deps commands q) ≡ accept (hold_body deps commands q)
  unfolding parse_hold_request field_of hold_body strict_eq
  hold_body-accepted commands q c i n =
      require-pass _ refl
      ∙ on_text-pass _ is_uuid_v5 (str commands.hold_command_id) (HasText-str is_uuid_v5 _ c)
      ∙ on_text-pass _ is_uuid_v5 (str q.summary.quote_id) (HasText-str is_uuid_v5 _ i)
      ∙ on_text-pass _ _ (str "create") (HasText-str _ "create" refl)
      ∙ require-pass _ (le→leb 1 q.summary.quote_version n)
      ∙ require-pass _ refl

  module _ (input : CheckoutInput) (reachable : IsReachable input) where
    check_contact-passes : check_contact (contact_value deps input) ≡ accept tt
    unfolding check_contact field_of require
    check_contact-passes =
        require-pass _ refl
        ∙ require-pass _ reachable.name
        ∙ require-pass _ refl
        ∙ require-pass _ refl
        ∙ require-pass _ refl
        ∙ require-pass _ refl
        ∙ require-pass _ reachable.email
        ∙ rw reachable.phone refl

    unheld_order-accepted :
        (commands : CheckoutCommands) (q : Quote)
        → is_uuid_v5 commands.order_command_id ≡ true
        → is_uuid_v5 q.summary.quote_id ≡ true
        → 1 ≤ q.summary.quote_version
        → parse_order_request (order_body deps input commands q none)
          ≡ accept (order_body deps input commands q none)
    unfolding parse_order_request field_of order_body
    unheld_order-accepted commands q c i n =
        require-pass _ refl
        ∙ on_text-pass _ is_uuid_v5 (str commands.order_command_id) (HasText-str is_uuid_v5 _ c)
        ∙ on_text-pass _ is_uuid_v5 (str q.summary.quote_id) (HasText-str is_uuid_v5 _ i)
        ∙ after_accept _ refl
        ∙ require-pass _ (le→leb 1 q.summary.quote_version n)
        ∙ after_accept _ check_contact-passes

    -- The order request that the web client builds is accepted as it is by the parser of the order
    -- function, if the customer's details are within the function's bounds, the command, the quote
    -- and the hold, if there is one, are UUIDs of the versions 1 to 5, and the quote version is
    -- positive.
    pub order_body-accepted :
        (commands : CheckoutCommands) (q : Quote) (hold_id : Option String)
        → is_uuid_v5 commands.order_command_id ≡ true
        → is_uuid_v5 q.summary.quote_id ≡ true
        → ((id : String) → hold_id ≡ some id → is_uuid_v5 id ≡ true)
        → 1 ≤ q.summary.quote_version
        → parse_order_request (order_body deps input commands q hold_id)
          ≡ accept (order_body deps input commands q hold_id)
    unfolding parse_order_request field_of order_body
    order_body-accepted commands q none c i hold n = unheld_order-accepted commands q c i n
    order_body-accepted commands q (some id) c i hold n = elim (Bool-cases (id === "")) [
      | inl x ↦ rw x (unheld_order-accepted commands q c i n)
      | inr x ↦ rw x (
          require-pass _ refl
          ∙ on_text-pass _ is_uuid_v5 (str commands.order_command_id) (HasText-str is_uuid_v5 _ c)
          ∙ on_text-pass _ is_uuid_v5 (str q.summary.quote_id) (HasText-str is_uuid_v5 _ i)
          ∙ on_text-pass _ is_uuid_v5 (str id) (HasText-str is_uuid_v5 _ (hold id refl))
          ∙ require-pass _ (le→leb 1 q.summary.quote_version n)
          ∙ after_accept _ check_contact-passes)
    ]
