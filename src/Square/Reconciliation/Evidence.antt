-- ===== src/Square/Reconciliation/Evidence.antt =====
-- When the evidence of a retrieval says that it is matched.
use mo_xx.Square.Reconciliation.Observation.{observe-IsFaithful, IsExpected, IsRetrieved}
use mo_xx.Square.Retrieval.{retrieve_square_payment, ProviderPayment}
use mo_xx.Square.Reconciliation.{ExpectedPayment}
use mo_xx.Js.Check.{ok, Exc}
use mo_xx.Square.Types.{World}
use mo_xx.Js.Value.{number, prop, Value, str}
use mo_xx.Square.Reconciliation.Observation.{observe-IsFaithful}
use mo_xx.Shared.{String, ◌≡◌}

module _ (w : World) (encode_uri_component : String → Exc String) (e : ExpectedPayment) where
  -- What stands behind an evidence that says matched: the payment as it was retrieved.
  pub record IsReconciled (access_token : String) (evidence : Value) : Type 0 where
    pub payment : ProviderPayment
    pub received :
        (retrieve_square_payment w encode_uri_component e.provider_payment_id access_token).outcome
        ≡ ok payment
    pub retrieved : IsRetrieved payment
    pub expected : IsExpected payment e
    pub order_id : prop evidence "order_id" ≡ str e.order_id
    pub amount : prop evidence "amount_minor" ≡ number e.amount.0 e.amount.1
