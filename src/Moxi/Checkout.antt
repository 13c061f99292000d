-- ===== src/Moxi/Checkout.antt =====
-- MoXi/src/features/preorder/checkout.ts, with the requests and the envelopes of
-- MoXi/src/lib/contracts.ts. The functions that are called are parameters; they give envelopes that
-- the schemas have let through.
pub mod Prepare
pub mod Guards
pub mod Bodies
pub mod Orders
pub mod Binding
pub mod Payment
pub mod Acceptance
use mathlib.Core.List.{[]}
use mo_xx.Shared.{if◌then◌else◌, ◌∷◌, ◌===◌, ◌&&◌, ◌==◌, Option, ℕ, String, Bool, List}
use mo_xx.Js.Value.{Items, Value}
use mo_xx.Js.Session.{Answer, Session, ◌>>=◌, pure, call, raise, error}

pub record MoneyContract : Type 0 where
  pub currency : String
  pub amount_minor : ℕ

pub record CheckoutCommands : Type 0 where
  pub quote_command_id : String
  pub hold_command_id : String
  pub order_command_id : String
  pub payment_command_id : String
  pub line_ids : List (String × String)

pub record QuoteSummary : Type 0 where
  pub quote_id : String
  pub quote_version : ℕ
  pub subtotal : MoneyContract
  pub quantity_savings : MoneyContract
  pub notice_savings : MoneyContract
  pub fees : MoneyContract
  pub tax : MoneyContract
  pub total : MoneyContract
  pub expires_at : String

pub record PreparedCheckout : Type 0 where
  pub order_id : String
  pub order_version : ℕ
  pub recovery_authority : String
  pub payment_command_id : String
  pub amount : MoneyContract
  pub quote : QuoteSummary

pub data CapacityResult : Type 0 where
  available hold_required unavailable : CapacityResult

pub record Quote : Type 0 where
  pub summary : QuoteSummary
  pub capacity_result : CapacityResult
  pub revalidation_token : String

pub record QuoteEnvelope : Type 0 where
  pub outcome : String
  pub quote : Option Quote

pub record HoldEnvelope : Type 0 where
  pub outcome : String
  pub hold_id : String
  pub hold_status : String

pub record OrderEnvelope : Type 0 where
  pub outcome : String
  pub order_id : String
  pub order_version : ℕ
  pub order_status : String
  pub amount_due : MoneyContract
  pub recovery_authority : String

pub record PaymentEnvelope : Type 0 where
  pub outcome : String
  pub order_id : String
  pub payment_status : String
  pub amount : MoneyContract

pub record Product : Type 0 where
  pub id : String
  pub item_version : ℕ

pub record CheckoutInput : Type 0 where
  pub is_live : Bool
  pub surface_id : Option String
  pub versions : Option Value
  pub products : List Product
  pub quantities : List (String × ℕ)
  pub selected_allergens : Items
  pub selected_window : String
  pub full_name : String
  pub email : String
  pub phone : String

-- A request's body, and the authority that goes with it.
pub data CheckoutCall : Type 0 where
  ask_quote : Value → CheckoutCall
  ask_hold ask_order ask_payment : Value → String → CheckoutCall

-- The functions, and `String` of a whole number.
pub record CheckoutDependencies : Type 0 where
  pub digits : ℕ → String
  pub quote_of : Value → Answer CheckoutCall QuoteEnvelope
  pub hold_of : Value → String → Answer CheckoutCall HoldEnvelope
  pub order_of : Value → String → Answer CheckoutCall OrderEnvelope
  pub payment_of : Value → String → Answer CheckoutCall PaymentEnvelope

abbrev pub reject_checkout : {A : Type 0} → String → Session CheckoutCall A
reject_checkout code = raise (error "CheckoutPreparationError" code)

-- `record[key] ?? otherwise`
abbrev pub lookup_or {ℓ} : {A : Type ℓ} → List (String × A) → String → A → A
lookup_or [] key otherwise = otherwise
lookup_or (entry ∷ l) key otherwise = if entry.0 === key then entry.1 else lookup_or l key otherwise

abbrev pub is_same_money : MoneyContract → MoneyContract → Bool
is_same_money a b = a.amount_minor == b.amount_minor && a.currency === b.currency
