-- ===== src/Moxi/Checkout/Prepare.antt =====
-- The preparation of a checkout and the hand-over of its payment: preparePreorderCheckout,
-- handoffPreorderPayment and replacePaymentCommand of checkout.ts.
use mathlib.Core.List.{[]}
use mo_xx.Moxi.Checkout.{
  available, hold_required, unavailable, is_same_money, hold_required, unavailable, lookup_or,
  ask_quote, reject_checkout, ask_payment, ask_order, ask_hold, OrderEnvelope, HoldEnvelope,
  CapacityResult, Quote, Product, CheckoutCall, PaymentEnvelope, CheckoutInput, CheckoutCommands,
  PreparedCheckout, CheckoutDependencies,
}
use mo_xx.Shared.{
  ◌&&◌, ltb, ◌||◌, ◌∷◌, ◌===◌, not, none, some, if◌then◌else◌, ℕ, String, Option, List,
}
use mo_xx.Js.Value.{cons, whole, nil, arr, str, number, Items, Fields, Value, obj, field, end}
use mo_xx.Js.Session.{Session, ◌>>=◌, pure, call}

module _ (deps : CheckoutDependencies) where
  abbrev whole_number : ℕ → Value
  whole_number n = number (whole n) (deps.digits n)

  -- the lines of the cart, of the products that have a quantity and an identifier
  unfoldable pub cart_lines : CheckoutInput → CheckoutCommands → List Product → Items
  cart_lines input commands [] = nil
  cart_lines input commands (p ∷ ps) =
      let rest = cart_lines input commands ps in
      let line_id = lookup_or commands.line_ids p.id "" in
      let quantity = lookup_or input.quantities p.id 0 in
      if ltb 0 quantity && not (line_id === "")
      then cons
          (obj (
            field "line_id" (str line_id) (
              field "item_id" (str p.id) (
                field "item_version" (whole_number p.item_version)
                  (field "quantity" (whole_number quantity) (field "choice_ids" (arr nil) end))))))
          rest
      else rest

  unfoldable pub quote_body : CheckoutInput → CheckoutCommands → String → Value → Items → Value
  quote_body input commands surface_id versions lines = obj (
      field "command_id" (str commands.quote_command_id) (
        field "surface_id" (str surface_id) (
          field "fulfillment_window_id" (str input.selected_window) (
            field "versions" versions (
              field "cart_version" (whole_number 1) (
                field "avoided_allergens" (arr input.selected_allergens)
                  (field "lines" (arr lines) end)))))))

  unfoldable pub hold_body : CheckoutCommands → Quote → Value
  hold_body commands q = obj (
      field "command_id" (str commands.hold_command_id) (
        field "action" (str "create") (
          field "quote_id" (str q.summary.quote_id)
            (field "expected_quote_version" (whole_number q.summary.quote_version) end))))

  abbrev pub contact_value : CheckoutInput → Value
  contact_value input = obj (
      field "name" (str input.full_name)
        (field "email" (str input.email) (field "phone" (str input.phone) end)))

  -- `...(holdId ? { hold_id: holdId } : {})`
  abbrev with_hold : Option String → Fields → Fields
  with_hold none rest = rest
  with_hold (some id) rest = if id === "" then rest else field "hold_id" (str id) rest

  unfoldable pub order_body : CheckoutInput → CheckoutCommands → Quote → Option String → Value
  order_body input commands q hold_id = obj (
      field "command_id" (str commands.order_command_id) (
        field "quote_id" (str q.summary.quote_id) (
          field "expected_quote_version" (whole_number q.summary.quote_version)
            (with_hold hold_id (field "contact" (contact_value input) end)))))

  abbrev pub prepared : CheckoutCommands → Quote → OrderEnvelope → PreparedCheckout
  prepared commands q o = record {
    order_id = o.order_id;
    order_version = o.order_version;
    recovery_authority = o.recovery_authority;
    payment_command_id = commands.payment_command_id;
    amount = o.amount_due;
    quote = q.summary;
  }

  unfoldable pub use_order :
      CheckoutCommands → Quote → OrderEnvelope → Session CheckoutCall PreparedCheckout
  use_order commands q o =
      if not (o.outcome === "accepted") || not (o.order_status === "awaiting_payment")
      then reject_checkout "order_rejected"
      else if not (is_same_money o.amount_due q.summary.total)
      then reject_checkout "binding_mismatch"
      else pure (prepared commands q o)

  unfoldable pub order_quote :
      CheckoutInput
      → CheckoutCommands
      → Quote
      → Option String
      → Session CheckoutCall PreparedCheckout
  unfolding order_body use_order
  order_quote input commands q hold_id =
      let body = order_body input commands q hold_id in
      call (ask_order body q.revalidation_token) (deps.order_of body q.revalidation_token)
      >>= use_order commands q

  unfoldable pub use_hold :
      CheckoutInput
      → CheckoutCommands
      → Quote
      → HoldEnvelope
      → Session CheckoutCall PreparedCheckout
  unfolding order_quote
  use_hold input commands q h =
      if not (h.outcome === "accepted") || not (h.hold_status === "active")
      then reject_checkout "hold_rejected"
      else order_quote input commands q (some h.hold_id)

  unfoldable pub hold_quote :
      CheckoutInput → CheckoutCommands → Quote → Session CheckoutCall PreparedCheckout
  unfolding hold_body use_hold
  hold_quote input commands q =
      let body = hold_body commands q in
      call (ask_hold body q.revalidation_token) (deps.hold_of body q.revalidation_token)
      >>= use_hold input commands q

  unfoldable pub use_capacity :
      CheckoutInput
      → CheckoutCommands
      → Quote
      → CapacityResult
      → Session CheckoutCall PreparedCheckout
  unfolding hold_quote order_quote
  use_capacity input commands q unavailable = reject_checkout "capacity_unavailable"
  use_capacity input commands q hold_required = hold_quote input commands q
  use_capacity input commands q available = order_quote input commands q none

  unfoldable pub use_quote :
      CheckoutInput
      → CheckoutCommands
      → String
      → Option Quote
      → Session CheckoutCall PreparedCheckout
  unfolding use_capacity
  use_quote input commands outcome none = reject_checkout "quote_rejected"
  use_quote input commands outcome (some q) =
      if not (outcome === "accepted")
      then reject_checkout "quote_rejected"
      else use_capacity input commands q q.capacity_result

  unfoldable pub quote_cart :
      CheckoutInput
      → CheckoutCommands
      → String
      → Value
      → Items
      → Session CheckoutCall PreparedCheckout
  unfolding quote_body use_quote
  quote_cart input commands surface_id versions nil = reject_checkout "empty_cart"
  quote_cart input commands surface_id versions (cons x xs) =
      let body = quote_body input commands surface_id versions (cons x xs) in
      call (ask_quote body) (deps.quote_of body) >>= λ e. use_quote input commands e.outcome e.quote

  -- the surface and the versions that the configuration has
  abbrev pub with_configuration :
      CheckoutInput
      → (String → Value → Session CheckoutCall PreparedCheckout)
      → Option String
      → Option Value
      → Session CheckoutCall PreparedCheckout
  with_configuration input k (some surface_id) (some versions) =
      if not input.is_live || surface_id === ""
      then reject_checkout "configuration_unavailable"
      else k surface_id versions
  with_configuration input k (some surface_id) none = reject_checkout "configuration_unavailable"
  with_configuration input k none versions = reject_checkout "configuration_unavailable"

  unfoldable pub prepare_preorder_checkout :
      CheckoutInput → CheckoutCommands → Session CheckoutCall PreparedCheckout
  unfolding cart_lines quote_cart
  prepare_preorder_checkout input commands =
      with_configuration input
        (λ surface_id versions.
          quote_cart input commands surface_id versions (cart_lines input commands input.products))
        input.surface_id input.versions

  unfoldable pub payment_body : PreparedCheckout → String → Value
  payment_body checkout source_token = obj (
      field "command_id" (str checkout.payment_command_id) (
        field "order_id" (str checkout.order_id) (
          field "expected_order_version" (whole_number checkout.order_version)
            (field "source_token" (str source_token) end))))

  unfoldable pub use_payment :
      PreparedCheckout → PaymentEnvelope → Session CheckoutCall PaymentEnvelope
  use_payment checkout p =
      if not (p.order_id === checkout.order_id) || not (is_same_money p.amount checkout.amount)
      then reject_checkout "binding_mismatch"
      else pure p

  unfoldable pub handoff_preorder_payment :
      PreparedCheckout → String → Session CheckoutCall PaymentEnvelope
  unfolding payment_body use_payment
  handoff_preorder_payment checkout source_token =
      let body = payment_body checkout source_token in
      call (ask_payment body checkout.recovery_authority)
        (deps.payment_of body checkout.recovery_authority)
      >>= use_payment checkout

-- the identifier is the one that `createId` gives
abbrev pub replace_payment_command : PreparedCheckout → ℕ → String → PreparedCheckout
replace_payment_command checkout order_version id = record checkout {
  order_version = order_version;
  payment_command_id = id;
}
