-- ===== src/Tests/Moxi.antt =====
-- A checkout of two coffees whose quote is held first, its payment, and a saved draft on a later menu.
use mo_xx.Moxi.Draft.{
  PreorderFixture, RecoverableDraft, revalidate_recovered_draft, verified, sold_out, limited,
  choose_window, take_product, maximum,
}
use mo_xx.Moxi.Draft.Recovery.{IsRecovered, revalidate_recovered_draft-IsRecovered}
use mo_xx.Moxi.Draft.Unadjusted.{IsKept, revalidate_recovered_draft-adjusted_iff}
use mo_xx.Js.Value.{nil, end, obj}
use mo_xx.Shared.{◌↔◌, false, refl, arith, ◌≡◌, ◌∷◌, ℕ, true, some, [], String}
use mo_xx.Js.Text.{utf16_length, is_uuid_v5}
use mo_xx.Js.Session.{returned}
use mo_xx.Moxi.Checkout.Prepare.{
  use_order, order_quote, use_hold, hold_quote, use_capacity, use_quote, quote_cart, use_payment,
  cart_lines, prepare_preorder_checkout, handoff_preorder_payment, order_body,
}
use mo_xx.Moxi.Checkout.Binding.{IsConfigured, prepare_preorder_checkout-IsConfigured}
use mo_xx.Moxi.Checkout.Payment.{IsPaid, handoff_preorder_payment-IsPaid}
use mo_xx.Moxi.Checkout.Acceptance.{IsReachable, order_body-accepted}
use mo_xx.Preorder.Requests.{has_at, is_blank, parse_order_request}
use mo_xx.Moxi.Checkout.{
  PreparedCheckout, CheckoutInput, CheckoutCommands, CheckoutDependencies, Quote, MoneyContract,
  hold_required,
}
use mo_xx.Js.Check.{accept}

abbrev price : ℕ → MoneyContract
price n = record { currency = "USD"; amount_minor = n }

abbrev first_id : String
first_id = "0190163d-8694-539b-aea5-966c26f8ad91"

abbrev held_quote : Quote
held_quote = record {
  summary = record {
    quote_id = first_id;
    quote_version = 3;
    subtotal = price 900;
    quantity_savings = price 50;
    notice_savings = price 0;
    fees = price 0;
    tax = price 70;
    total = price 920;
    expires_at = "2026-01-01T00:00:00Z";
  };
  capacity_result = hold_required;
  revalidation_token = "token";
}

abbrev services : CheckoutDependencies
services = record {
  digits = λ n. "3";
  quote_of = λ body h. returned record { outcome = "accepted"; quote = some held_quote };
  hold_of = λ body token h.
      returned record { outcome = "accepted"; hold_id = first_id; hold_status = "active" };
  order_of = λ body token h. returned record {
    outcome = "accepted";
    order_id = first_id;
    order_version = 1;
    order_status = "awaiting_payment";
    amount_due = price 920;
    recovery_authority = "authority";
  };
  payment_of = λ body token h. returned record {
    outcome = "accepted";
    order_id = first_id;
    payment_status = "paid";
    amount = price 920;
  };
}

abbrev cart : CheckoutInput
cart = record {
  is_live = true;
  surface_id = some first_id;
  versions = some (obj end);
  products =
      record { id = "coffee"; item_version = 2 } ∷ record { id = "cake"; item_version = 1 } ∷ [];
  quantities = ("coffee", 2) ∷ [];
  selected_allergens = nil;
  selected_window = first_id;
  full_name = "Ada";
  email = "ada@example.org";
  phone = "555-0100";
}

abbrev identifiers : CheckoutCommands
identifiers = record {
  quote_command_id = first_id;
  hold_command_id = first_id;
  order_command_id = first_id;
  payment_command_id = first_id;
  line_ids = ("coffee", first_id) ∷ [];
}

abbrev ready : PreparedCheckout
ready = record {
  order_id = first_id;
  order_version = 1;
  recovery_authority = "authority";
  payment_command_id = first_id;
  amount = price 920;
  quote = held_quote.summary;
}

prepares : (prepare_preorder_checkout services cart identifiers []).result ≡ returned ready
unfolding prepare_preorder_checkout cart_lines quote_cart use_quote use_capacity hold_quote use_hold
    order_quote use_order
prepares = refl

prepare_preorder_checkout-IsConfigured_example :
    IsConfigured services cart identifiers []
      (prepare_preorder_checkout services cart identifiers []).calls
      ready
prepare_preorder_checkout-IsConfigured_example =
    prepare_preorder_checkout-IsConfigured services cart identifiers [] ready prepares

pays :
    (handoff_preorder_payment services ready "nonce" []).result
    ≡ returned record {
      outcome = "accepted";
      order_id = first_id;
      payment_status = "paid";
      amount = price 920;
    }
unfolding handoff_preorder_payment use_payment
pays = refl

handoff_preorder_payment-IsPaid_example :
    IsPaid services ready "nonce" []
      (handoff_preorder_payment services ready "nonce" []).calls
      (record {
        outcome = "accepted";
        order_id = first_id;
        payment_status = "paid";
        amount = price 920;
      })
handoff_preorder_payment-IsPaid_example =
    handoff_preorder_payment-IsPaid services ready "nonce" [] _ pays

reachable : IsReachable cart
unfolding is_blank has_at utf16_length
reachable = record { name = refl; email = refl; phone = refl }

first_id-Is : is_uuid_v5 first_id ≡ true
unfolding is_uuid_v5
first_id-Is = refl

held_id : (id : String) → some first_id ≡ some id → is_uuid_v5 id ≡ true
held_id id e = let same : first_id ≡ id = cc in rw (← same) first_id-Is

order_body-accepted_example :
    parse_order_request (order_body services cart identifiers held_quote (some first_id))
    ≡ accept (order_body services cart identifiers held_quote (some first_id))
order_body-accepted_example =
    order_body-accepted services cart reachable identifiers held_quote (some first_id) first_id-Is
      first_id-Is held_id (omega arith)

abbrev menu : PreorderFixture
menu = record {
  fulfillment_windows =
      record { id = "noon"; availability = sold_out }
      ∷ record { id = "two"; availability = limited }
      ∷ [];
  allergen_options = "milk" ∷ "egg" ∷ [];
  products =
      record { id = "coffee"; allergens = []; allergen_status = verified; maximum_quantity = 3 }
      ∷ record {
        id = "latte";
        allergens = "milk" ∷ [];
        allergen_status = verified;
        maximum_quantity = 9;
      }
      ∷ [];
}

abbrev saved_draft : RecoverableDraft
saved_draft = record {
  selected_window = "noon";
  selected_allergens = "milk" ∷ [];
  quantities = ("coffee", 5) ∷ ("latte", 1) ∷ [];
}

recovers : revalidate_recovered_draft saved_draft menu ≡ record {
  selected_window = "two";
  selected_allergens = "milk" ∷ [];
  quantities = ("coffee", 3) ∷ [];
  adjusted = true;
}
unfolding revalidate_recovered_draft choose_window take_product maximum
recovers = refl

revalidate_recovered_draft-IsRecovered_example :
    IsRecovered saved_draft menu (revalidate_recovered_draft saved_draft menu)
revalidate_recovered_draft-IsRecovered_example =
    revalidate_recovered_draft-IsRecovered saved_draft menu

revalidate_recovered_draft-adjusted_iff_example :
    ((revalidate_recovered_draft saved_draft menu).adjusted ≡ false)
    ↔ IsKept saved_draft menu (revalidate_recovered_draft saved_draft menu)
revalidate_recovered_draft-adjusted_iff_example =
    revalidate_recovered_draft-adjusted_iff saved_draft menu
