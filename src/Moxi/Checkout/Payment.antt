-- ===== src/Moxi/Checkout/Payment.antt =====
-- The payment of a prepared checkout that is handed over: handoffPreorderPayment of checkout.ts.
use mo_xx.Js.Value.{whole, number, str, prop, field_of, Value}
use mo_xx.Moxi.Checkout.Guards.{is_same_money-equal}
use mo_xx.Js.Session.Traces.{continue-eq-returned}
use mo_xx.Js.Session.{returned}
use mo_xx.Moxi.Checkout.{
  is_same_money, ask_payment, PaymentEnvelope, PreparedCheckout, CheckoutCall, CheckoutDependencies,
}
use mo_xx.Moxi.Checkout.Prepare.{handoff_preorder_payment, payment_body, use_payment}
use mo_xx.Shared.{
  refl, inr, ===→eq, inl, ◌===◌, Bool-cases, ap, ◌∙◌, true, ◌∷◌, ◌≡◌, String, List, [],
}

-- The body of a payment request, as the function of MoMi reads it.
pub record IsPaymentOf (deps : CheckoutDependencies) (checkout : PreparedCheckout) (token : String)
    (body : Value) : Type 0 where
  pub command : prop body "command_id" ≡ str checkout.payment_command_id
  pub order : prop body "order_id" ≡ str checkout.order_id
  pub version :
      prop body "expected_order_version"
      ≡ number (whole checkout.order_version) (deps.digits checkout.order_version)
  pub source : prop body "source_token" ≡ str token

payment_body-IsPaymentOf :
    (deps : CheckoutDependencies) (checkout : PreparedCheckout) (token : String)
    → IsPaymentOf deps checkout token (payment_body deps checkout token)
unfolding payment_body field_of
payment_body-IsPaymentOf deps checkout token = record {
  command = refl;
  order = refl;
  version = refl;
  source = refl;
}

module _ (deps : CheckoutDependencies) (checkout : PreparedCheckout) where
  -- The answer to the request of the payment, for the checkout's order and amount.
  pub record IsPaid (token : String) (h cs : List CheckoutCall) (p : PaymentEnvelope) : Type 0 where
    pub body : Value
    pub asked : IsPaymentOf deps checkout token body
    pub answered : deps.payment_of body checkout.recovery_authority h ≡ returned p
    pub calls : cs ≡ ask_payment body checkout.recovery_authority ∷ []
    pub same_order : p.order_id ≡ checkout.order_id
    pub same_amount :
        (p.amount.amount_minor ≡ checkout.amount.amount_minor)
        × (p.amount.currency ≡ checkout.amount.currency)

  use_payment-returned :
      (x p : PaymentEnvelope) (h : List CheckoutCall)
      → (use_payment deps checkout x h).result ≡ returned p
      → (p ≡ x)
        × (x.order_id ≡ checkout.order_id)
        × (is_same_money x.amount checkout.amount ≡ true)
        × ((use_payment deps checkout x h).calls ≡ [])
  unfolding use_payment
  use_payment-returned x p h e = elim (Bool-cases (x.order_id === checkout.order_id)) [
    | inl i ↦ elim (Bool-cases (is_same_money x.amount checkout.amount)) [
      | inl m ↦
          (let e' = rw (i, m) at e in cc, ===→eq x.order_id checkout.order_id i, m, rw (i, m) refl)
      | inr m ↦ (let e' = rw (i, m) at e in cc)
    ]
    | inr i ↦ (let e' = rw i at e in cc)
  ]

  -- A payment that is handed over was asked for once, under the checkout's recovery authority, by
  -- a body that has the checkout's command, order and version and the source token, and is
  -- returned only if it is of the checkout's order, amount and currency.
  pub handoff_preorder_payment-IsPaid :
      (token : String) (h : List CheckoutCall) (p : PaymentEnvelope)
      → (handoff_preorder_payment deps checkout token h).result ≡ returned p
      → IsPaid token h (handoff_preorder_payment deps checkout token h).calls p
  unfolding handoff_preorder_payment
  handoff_preorder_payment-IsPaid token h p e =
      let body = payment_body deps checkout token in
      let (x, answered, used, calls) =
        continue-eq-returned (deps.payment_of body checkout.recovery_authority h)
          (ask_payment body checkout.recovery_authority ∷ []) h (use_payment deps checkout) e in
      let (same, order, amount, none_more) = use_payment-returned x p _ used in
      record {
        body = body;
        asked = payment_body-IsPaymentOf deps checkout token;
        answered = rw same answered;
        calls = calls ∙ ap (λ l. ask_payment body checkout.recovery_authority ∷ l) none_more;
        same_order = rw same order;
        same_amount = rw same (is_same_money-equal x.amount checkout.amount amount);
      }
