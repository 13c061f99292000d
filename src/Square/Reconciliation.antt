-- ===== src/Square/Reconciliation.antt =====
-- square-payment-acquisition: a payment as it was expected and as it was retrieved
-- (src/acquire_square_payment.ts, src/build_reconciliation_evidence.ts, and the public contract
-- square.payment.retrieve.v1).
pub mod Observation
pub mod Evidence
use mo_xx.Payment.Evidence.{evidence_object}
use mo_xx.Js.Value.{is_safe_integer, str, strict_eq, number, null, Value, Number}
use mo_xx.Js.Check.{Exc}
use mo_xx.Square.Types.{
  disposition_text, status_text, or_empty, SquareRequest, missing, mismatch, is_setting, matched,
  Environment, PaymentStatus, World, Disposition,
}
use mo_xx.Square.Retrieval.{retrieve_square_payment, map_square_payment_status, ProviderPayment}
use Prim.Native.String
use mo_xx.Js.Effect.{pure, Effect, ◌>>=◌}
use mo_xx.Shared.{
  [], not, ◌∷◌, ◌||◌, true, ◌===◌, ◌&&◌, false, some, none, if◌then◌else◌, Bool, String, Option,
  ◌≡◌,
}

pub record ExpectedPayment : Type 0 where
  pub provider_payment_id : String
  pub order_id : String
  pub amount : Number × String
  pub currency : String
  pub location_id : String

pub record PaymentObservation : Type 0 where
  pub disposition : Disposition
  pub provider_updated_at : Option String
  pub provider_status : Option String
  pub provider_request_id : Option String
  pub payment_status : PaymentStatus
  pub error_code : Option String
  pub expected : ExpectedPayment

abbrev unknown_observation :
    ExpectedPayment → Disposition → Option String → String → PaymentObservation
unknown_observation expected disposition request_id error_code = record {
  disposition = disposition;
  provider_updated_at = none;
  provider_status = none;
  provider_request_id = request_id;
  payment_status = PaymentStatus.indeterminate;
  error_code = some error_code;
  expected = expected;
}

-- `a === b` of a text that may be null and a text
abbrev pub text_is : Option String → String → Bool
text_is none s = false
text_is (some t) s = t === s

abbrev pub number_is : Option (Number × String) → Number × String → Bool
number_is none b = false
number_is (some a) b = strict_eq (number a.0 a.1) (number b.0 b.1)

abbrev is_some {ℓ} : {A : Type ℓ} → Option A → Bool
is_some none = false
is_some (some a) = true

unfoldable pub is_observed : ProviderPayment → ExpectedPayment → Bool
is_observed p e =
    text_is p.provider_payment_id e.provider_payment_id
    && text_is p.order_id e.order_id
    && text_is p.location_id e.location_id
    && number_is p.amount_minor e.amount
    && text_is p.currency e.currency
    && is_some p.provider_status
    && is_some p.provider_updated_at

unfoldable pub observed : ExpectedPayment → ProviderPayment → PaymentObservation
unfolding is_observed map_square_payment_status
observed e p =
    let matches = is_observed p e in
    record {
      disposition = if matches then matched else mismatch;
      provider_updated_at = p.provider_updated_at;
      provider_status = p.provider_status;
      provider_request_id = p.provider_request_id;
      payment_status = map_square_payment_status p.provider_status;
      error_code = if matches then none else some "provider_identity_mismatch";
      expected = e;
    }

-- The observation, from what was retrieved.
unfoldable pub observe : ExpectedPayment → ProviderPayment → PaymentObservation
unfolding observed
observe e p = elim p.error_code [
  | some code ↦
      if code === "not_found"
      then unknown_observation e missing p.provider_request_id "not_found"
      else if code === ""
      then observed e p
      else unknown_observation e Disposition.indeterminate p.provider_request_id code
  | none ↦ observed e p
]

module _ (w : World) (encode_uri_component : String → Exc String) where
  -- src/acquire_square_payment.ts
  unfoldable pub acquire_square_payment :
      ExpectedPayment → String → Effect SquareRequest PaymentObservation
  unfolding observe retrieve_square_payment
  acquire_square_payment e access_token =
      if e.provider_payment_id === ""
        || access_token === ""
        || not (is_safe_integer (number e.amount.0 e.amount.1))
      then pure (unknown_observation e Disposition.indeterminate none "invalid_observation_request")
      else (do
        p ← retrieve_square_payment w encode_uri_component e.provider_payment_id access_token
        pure (observe e p))

  abbrev null_text : Option String → Value
  null_text none = null
  null_text (some s) = str s

  -- src/build_reconciliation_evidence.ts
  unfoldable pub build_reconciliation_evidence : PaymentObservation → Value
  build_reconciliation_evidence o =
      let e = o.expected in
      let amount = number e.amount.0 e.amount.1 in
      let hash = w.digest (
        str e.provider_payment_id
        ∷ null_text o.provider_updated_at
        ∷ null_text o.provider_request_id
        ∷ str (status_text o.payment_status)
        ∷ str (disposition_text o.disposition)
        ∷ str e.order_id
        ∷ amount
        ∷ str e.currency
        ∷ str e.location_id
        ∷ []) in
      evidence_object (String.◌++◌ "square:reconciliation:sha256:" hash) "reconciliation"
        (str (disposition_text o.disposition)) (str (status_text o.payment_status))
        (str e.provider_payment_id) (null_text o.provider_updated_at) (str e.order_id) amount
        (str e.currency) (str e.location_id)

  -- contracts/public/square.payment.retrieve.v1/retrieve.ts: without a token for the location the
  -- observation is invalid
  abbrev pub usable_token : Environment → String → String
  usable_token env location_id =
      if is_setting env.location_id location_id then or_empty env.access_token else ""

  unfoldable pub retrieve_payment : Environment → ExpectedPayment → Effect SquareRequest Value
  unfolding build_reconciliation_evidence acquire_square_payment
  retrieve_payment env e = do
    o ← acquire_square_payment e (usable_token env e.location_id)
    pure (build_reconciliation_evidence o)
