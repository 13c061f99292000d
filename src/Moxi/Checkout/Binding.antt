-- ===== src/Moxi/Checkout/Binding.antt =====
-- What a prepared checkout and a payment that is handed back are bound to.
use mo_xx.Moxi.Checkout.Orders.{use_capacity-IsSecured, IsSecured}
use mo_xx.Moxi.Checkout.Guards.{neither}
use mo_xx.Js.Value.{nil, cons, Items, Value}
use mo_xx.Moxi.Checkout.Prepare.{
  quote_body, cart_lines, with_configuration, use_quote, quote_cart, prepare_preorder_checkout,
}
use mo_xx.Moxi.Checkout.{
  ask_quote, QuoteEnvelope, PreparedCheckout, CheckoutCall, Quote, CheckoutCommands, CheckoutInput,
  CheckoutDependencies,
}
use mo_xx.Shared.{
  inr, ===→eq, refl, inl, false, Bool-cases, ◌||◌, true, ◌===◌, not, ◌++◌, some, [], ◌∷◌, none, ◌≡◌,
  String, Option, List,
}
use mo_xx.Js.Session.{returned}
use mo_xx.Js.Session.Traces.{continue-eq-returned}

module _ (deps : CheckoutDependencies) (input : CheckoutInput) (commands : CheckoutCommands) where
  -- An accepted quote of a cart that has a line, and what is done with the quote.
  pub record IsQuoted (surface_id : String) (versions : Value) (h cs : List CheckoutCall)
      (checkout : PreparedCheckout) : Type 0 where
    pub line : Value
    pub lines : Items
    pub cart : cart_lines deps input commands input.products ≡ cons line lines
    pub envelope : QuoteEnvelope
    pub quote : Quote
    pub answered :
        deps.quote_of (quote_body deps input commands surface_id versions (cons line lines)) h
        ≡ returned envelope
    pub accepted : (envelope.outcome ≡ "accepted") × (envelope.quote ≡ some quote)
    pub rest : List CheckoutCall
    pub calls :
        cs ≡ ask_quote (quote_body deps input commands surface_id versions (cons line lines)) ∷ rest
    pub secured :
        IsSecured deps input commands quote
          (h
            ++ ask_quote (quote_body deps input commands surface_id versions (cons line lines))
              ∷ [])
          rest
          checkout

  use_quote-IsSecured :
      (outcome : String) (found : Option Quote) (h : List CheckoutCall)
      (checkout : PreparedCheckout)
      → (use_quote deps input commands outcome found h).result ≡ returned checkout
      → (q : Quote) × (outcome ≡ "accepted")
        × (found ≡ some q)
        × IsSecured deps input commands q h
            (use_quote deps input commands outcome found h).calls
            checkout
  unfolding use_quote
  use_quote-IsSecured outcome none h checkout e = cc
  use_quote-IsSecured outcome (some q) h checkout e = elim (Bool-cases (outcome === "accepted")) [
    | inl x ↦ (
      q,
      ===→eq outcome "accepted" x,
      refl,
      rw x (
          use_capacity-IsSecured deps input commands q q.capacity_result h checkout refl
            (rw x at e)),
    )
    | inr x ↦ (let e' = rw x at e in cc)
  ]

  quote_cart-IsQuoted :
      (surface_id : String) (versions : Value) (items : Items) (h : List CheckoutCall)
      (checkout : PreparedCheckout)
      → cart_lines deps input commands input.products ≡ items
      → (quote_cart deps input commands surface_id versions items h).result ≡ returned checkout
      → IsQuoted surface_id versions h
          (quote_cart deps input commands surface_id versions items h).calls
          checkout
  unfolding quote_cart
  quote_cart-IsQuoted surface_id versions nil h checkout s e = cc
  quote_cart-IsQuoted surface_id versions (cons x xs) h checkout s e =
      let body = quote_body deps input commands surface_id versions (cons x xs) in
      let (v, answered, used, calls) =
        continue-eq-returned (deps.quote_of body h) (ask_quote body ∷ []) h
          (λ v. use_quote deps input commands v.outcome v.quote) e in
      let (q, accepted, found, secured) = use_quote-IsSecured v.outcome v.quote _ checkout used in
      record {
        line = x;
        lines = xs;
        cart = s;
        envelope = v;
        quote = q;
        answered = answered;
        accepted = (accepted, found);
        rest = _;
        calls = calls;
        secured = secured;
      }

  -- A live configuration, whose surface is the quote's.
  pub record IsConfigured (h cs : List CheckoutCall) (checkout : PreparedCheckout) : Type 0 where
    pub surface_id : String
    pub versions : Value
    pub live : input.is_live ≡ true
    pub surface : input.surface_id ≡ some surface_id
    pub named : (surface_id === "") ≡ false
    pub versioned : input.versions ≡ some versions
    pub quoted : IsQuoted surface_id versions h cs checkout

  with_configuration-IsConfigured :
      (surface : Option String) (versions : Option Value) (h : List CheckoutCall)
      (checkout : PreparedCheckout)
      → input.surface_id ≡ surface
      → input.versions ≡ versions
      → (with_configuration deps input
          (λ s v.
            quote_cart deps input commands s v (cart_lines deps input commands input.products))
          surface
          versions
          h).result
        ≡ returned checkout
      → IsConfigured h
          (with_configuration deps input
            (λ s v.
              quote_cart deps input commands s v (cart_lines deps input commands input.products))
            surface
            versions
            h).calls
          checkout
  with_configuration-IsConfigured none versions h checkout s v e = cc
  with_configuration-IsConfigured (some surface_id) none h checkout s v e = cc
  with_configuration-IsConfigured (some surface_id) (some versions) h checkout s v e =
      elim (Bool-cases (not input.is_live || surface_id === "")) [
        | inl x ↦ (let e' = rw x at e in cc)
        | inr x ↦
            let (live, named) = neither input.is_live (surface_id === "") x in
            record {
              surface_id = surface_id;
              versions = versions;
              live = live;
              surface = s;
              named = named;
              versioned = v;
              quoted = rw x (quote_cart-IsQuoted surface_id versions _ h checkout refl (rw x at e));
            }
      ]

  -- A checkout is prepared only if the configuration is live with a surface and versions, the cart
  -- has a line, the quote that was asked for it was accepted, a hold that the quote requires was
  -- made and is active, and the order of the quote under that hold was accepted, awaits its
  -- payment and is due exactly the total of the quote; the calls are these requests in this order,
  -- the hold and the order under their own commands, for the quote's identifier and version and
  -- under the authority that it gave, the order with the hold and the customer's details, and what
  -- is prepared is the order's and the quote's own.
  pub prepare_preorder_checkout-IsConfigured :
      (h : List CheckoutCall) (checkout : PreparedCheckout)
      → (prepare_preorder_checkout deps input commands h).result ≡ returned checkout
      → IsConfigured h (prepare_preorder_checkout deps input commands h).calls checkout
  unfolding prepare_preorder_checkout
  prepare_preorder_checkout-IsConfigured h checkout e =
      with_configuration-IsConfigured input.surface_id input.versions h checkout refl refl e
