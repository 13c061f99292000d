-- ===== src/Moxi/Checkout/Bodies.antt =====
-- The bodies of the hold and of the order that preparePreorderCheckout sends.
use mo_xx.Js.Value.{whole, number, str, prop, field_of, Value}
use mo_xx.Moxi.Checkout.Prepare.{hold_body, order_body}
use mo_xx.Moxi.Checkout.{Quote, CheckoutCommands, CheckoutInput, CheckoutDependencies}
use mo_xx.Shared.{
  refl, sym, false, true, ap, ◌∙◌, inr, inl, Bool-cases, ◌===◌, some, none, ◌≡◌, String, Option,
}

-- The body of a hold request, and of an order request, as the functions of MoMi read them.
pub record IsHoldOf (deps : CheckoutDependencies) (commands : CheckoutCommands) (q : Quote)
    (body : Value) : Type 0 where
  pub command : prop body "command_id" ≡ str commands.hold_command_id
  pub action : prop body "action" ≡ str "create"
  pub quote : prop body "quote_id" ≡ str q.summary.quote_id
  pub version :
      prop body "expected_quote_version"
      ≡ number (whole q.summary.quote_version) (deps.digits q.summary.quote_version)

pub record IsOrderOf (deps : CheckoutDependencies) (input : CheckoutInput)
    (commands : CheckoutCommands) (q : Quote) (hold_id : Option String) (body : Value)
    : Type 0 where
  pub command : prop body "command_id" ≡ str commands.order_command_id
  pub quote : prop body "quote_id" ≡ str q.summary.quote_id
  pub version :
      prop body "expected_quote_version"
      ≡ number (whole q.summary.quote_version) (deps.digits q.summary.quote_version)
  pub hold : (id : String) → hold_id ≡ some id → (id === "") ≡ false → prop body "hold_id" ≡ str id
  pub name : prop (prop body "contact") "name" ≡ str input.full_name
  pub email : prop (prop body "contact") "email" ≡ str input.email
  pub phone : prop (prop body "contact") "phone" ≡ str input.phone

pub hold_body-IsHoldOf :
    (deps : CheckoutDependencies) (commands : CheckoutCommands) (q : Quote)
    → IsHoldOf deps commands q (hold_body deps commands q)
unfolding hold_body field_of
hold_body-IsHoldOf deps commands q = record {
  command = refl;
  action = refl;
  quote = refl;
  version = refl;
}

pub order_body-IsOrderOf :
    (deps : CheckoutDependencies) (input : CheckoutInput) (commands : CheckoutCommands) (q : Quote)
    (hold_id : Option String)
    → IsOrderOf deps input commands q hold_id (order_body deps input commands q hold_id)
unfolding order_body field_of
order_body-IsOrderOf deps input commands q none = record {
  command = refl;
  quote = refl;
  version = refl;
  hold = λ id e n. cc;
  name = refl;
  email = refl;
  phone = refl;
}
order_body-IsOrderOf deps input commands q (some id) = elim (Bool-cases (id === "")) [
  | inl x ↦ record {
    command = refl;
    quote = refl;
    version = refl;
    hold = λ i e n. (let same : id ≡ i = cc in let off : true ≡ false = sym x ∙ rw same n in cc);
    name = rw x refl;
    email = rw x refl;
    phone = rw x refl;
  }
  | inr x ↦ record {
    command = refl;
    quote = refl;
    version = refl;
    hold = λ i e n. (let same : id ≡ i = cc in rw x (ap str same));
    name = rw x refl;
    email = rw x refl;
    phone = rw x refl;
  }
]
