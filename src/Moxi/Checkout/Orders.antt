-- ===== src/Moxi/Checkout/Orders.antt =====
-- The hold and the order of a quote: holdId and the order of preparePreorderCheckout.
use mo_xx.Moxi.Checkout.Bodies.{IsHoldOf, IsOrderOf, hold_body-IsHoldOf, order_body-IsOrderOf}
use mo_xx.Moxi.Checkout.Guards.{guarded-calls, is_same_money-equal, guarded-returned, equal_both}
use mo_xx.Moxi.Checkout.Prepare.{
  use_capacity, use_hold, hold_quote, prepared, hold_body, order_body, use_order, order_quote,
}
use mo_xx.Moxi.Checkout.{
  unavailable, CapacityResult, ask_hold, hold_required, HoldEnvelope, ask_order, available,
  OrderEnvelope, PreparedCheckout, CheckoutCall, Quote, CheckoutCommands, CheckoutInput,
  CheckoutDependencies,
}
use mo_xx.Shared.{
  ap, ◌∙◌, inr, inl, Bool-cases, ◌||◌, ◌===◌, not, ◌++◌, some, [], ◌∷◌, none, ◌≡◌, String, Option,
  List,
}
use mo_xx.Js.Session.{returned}
use mo_xx.Js.Session.Traces.{continue-eq-returned}

module _ (deps : CheckoutDependencies) (input : CheckoutInput) (commands : CheckoutCommands) where
  -- An order of the quote, that awaits its payment of the quote's total.
  pub record IsOrdered (q : Quote) (hold_id : Option String) (h cs : List CheckoutCall)
      (checkout : PreparedCheckout) : Type 0 where
    pub order : OrderEnvelope
    pub ordered :
        deps.order_of (order_body deps input commands q hold_id) q.revalidation_token h
        ≡ returned order
    pub calls : cs ≡ ask_order (order_body deps input commands q hold_id) q.revalidation_token ∷ []
    pub accepted : (order.outcome ≡ "accepted") × (order.order_status ≡ "awaiting_payment")
    pub same_amount :
        (checkout.amount.amount_minor ≡ q.summary.total.amount_minor)
        × (checkout.amount.currency ≡ q.summary.total.currency)
    pub same : checkout ≡ prepared deps commands q order
    pub asked : IsOrderOf deps input commands q hold_id (order_body deps input commands q hold_id)
    pub own :
        (checkout.order_id ≡ order.order_id)
        × (checkout.order_version ≡ order.order_version)
        × (checkout.recovery_authority ≡ order.recovery_authority)
        × (checkout.payment_command_id ≡ commands.payment_command_id)
        × (checkout.quote ≡ q.summary)

  -- The quote is held first if it says so, and the order names the hold.
  pub data IsSecured (q : Quote) (h cs : List CheckoutCall) (checkout : PreparedCheckout)
      : Type 0 where
    unheld :
        q.capacity_result ≡ available → IsOrdered q none h cs checkout → IsSecured q h cs checkout
    held :
        (e : HoldEnvelope) (rest : List CheckoutCall)
        → q.capacity_result ≡ hold_required
        → deps.hold_of (hold_body deps commands q) q.revalidation_token h ≡ returned e
        → IsHoldOf deps commands q (hold_body deps commands q)
        → e.outcome ≡ "accepted"
        → e.hold_status ≡ "active"
        → cs ≡ ask_hold (hold_body deps commands q) q.revalidation_token ∷ rest
        → IsOrdered q
            (some e.hold_id)
            (h ++ ask_hold (hold_body deps commands q) q.revalidation_token ∷ [])
            rest
            checkout
        → IsSecured q h cs checkout

  use_order-returned :
      (q : Quote) (o : OrderEnvelope) (h : List CheckoutCall) (checkout : PreparedCheckout)
      → (use_order deps commands q o h).result ≡ returned checkout
      → ((o.outcome ≡ "accepted") × (o.order_status ≡ "awaiting_payment"))
        × ((o.amount_due.amount_minor ≡ q.summary.total.amount_minor)
            × (o.amount_due.currency ≡ q.summary.total.currency))
        × (checkout ≡ prepared deps commands q o)
        × ((use_order deps commands q o h).calls ≡ [])
  unfolding use_order
  use_order-returned q o h checkout e =
      let (b, c, same) = guarded-returned _ _ "order_rejected" "binding_mismatch" _ checkout h e in
      (
        equal_both o.outcome "accepted" o.order_status "awaiting_payment" b,
        is_same_money-equal o.amount_due q.summary.total c,
        same,
        guarded-calls _ _ "order_rejected" "binding_mismatch" _ h,
      )

  order_quote-IsOrdered :
      (q : Quote) (hold_id : Option String) (h : List CheckoutCall) (checkout : PreparedCheckout)
      → (order_quote deps input commands q hold_id h).result ≡ returned checkout
      → IsOrdered q hold_id h (order_quote deps input commands q hold_id h).calls checkout
  unfolding order_quote
  order_quote-IsOrdered q hold_id h checkout e =
      let body = order_body deps input commands q hold_id in
      let (o, answered, used, calls) =
        continue-eq-returned (deps.order_of body q.revalidation_token h)
          (ask_order body q.revalidation_token ∷ []) h (use_order deps commands q) e in
      let (accepted, amount, same, none_more) = use_order-returned q o _ checkout used in
      record {
        order = o;
        ordered = answered;
        calls = calls ∙ ap (λ l. ask_order body q.revalidation_token ∷ l) none_more;
        accepted = accepted;
        same_amount = rw same amount;
        same = same;
        asked = order_body-IsOrderOf deps input commands q hold_id;
        own = (
          ap (λ c. c.order_id) same,
          ap (λ c. c.order_version) same,
          ap (λ c. c.recovery_authority) same,
          ap (λ c. c.payment_command_id) same,
          ap (λ c. c.quote) same,
        );
      }

  use_hold-IsOrdered :
      (q : Quote) (v : HoldEnvelope) (h : List CheckoutCall) (checkout : PreparedCheckout)
      → (use_hold deps input commands q v h).result ≡ returned checkout
      → ((v.outcome ≡ "accepted") × (v.hold_status ≡ "active"))
        × IsOrdered q (some v.hold_id) h (use_hold deps input commands q v h).calls checkout
  unfolding use_hold
  use_hold-IsOrdered q v h checkout e =
      elim (Bool-cases (not (v.outcome === "accepted") || not (v.hold_status === "active"))) [
        | inl x ↦ cc
        | inr x ↦ (
          equal_both v.outcome "accepted" v.hold_status "active" x,
          rw x (order_quote-IsOrdered q (some v.hold_id) h checkout (rw x at e)),
        )
      ]

  hold_quote-IsSecured :
      (q : Quote) (h : List CheckoutCall) (checkout : PreparedCheckout)
      → q.capacity_result ≡ hold_required
      → (hold_quote deps input commands q h).result ≡ returned checkout
      → IsSecured q h (hold_quote deps input commands q h).calls checkout
  unfolding hold_quote
  hold_quote-IsSecured q h checkout required e =
      let body = hold_body deps commands q in
      let (v, answered, used, calls) =
        continue-eq-returned (deps.hold_of body q.revalidation_token h)
          (ask_hold body q.revalidation_token ∷ []) h (use_hold deps input commands q) e in
      let (accepted, ordered) = use_hold-IsOrdered q v _ checkout used in
      held v _ required answered (hold_body-IsHoldOf deps commands q) accepted.0 accepted.1 calls
        ordered

  pub use_capacity-IsSecured :
      (q : Quote) (r : CapacityResult) (h : List CheckoutCall) (checkout : PreparedCheckout)
      → q.capacity_result ≡ r
      → (use_capacity deps input commands q r h).result ≡ returned checkout
      → IsSecured q h (use_capacity deps input commands q r h).calls checkout
  unfolding use_capacity
  use_capacity-IsSecured q unavailable h checkout s e = cc
  use_capacity-IsSecured q hold_required h checkout s e = hold_quote-IsSecured q h checkout s e
  use_capacity-IsSecured q available h checkout s e =
      unheld s (order_quote-IsOrdered q none h checkout e)
