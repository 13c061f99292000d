-- ===== src/Payment/Reconcile.antt =====
-- functions/momi-preorder-payment-reconcile-v1/src/orchestrate.ts: claim the attempt, retrieve the
-- payment from the provider, and project what is known of it.
pub mod Retrieves
pub mod Authority
use mo_xx.Shared.{String, Bool, true, if◌then◌else◌}
use mo_xx.Js.Text.{fits}
use mo_xx.Js.Value.{Value, obj, end, field, prop, is_truthy}
use mo_xx.Js.Check.{Exc, ok, Check, accept, reject, raise}
use mo_xx.Js.Effect.{Effect, pure, fail, lift, call, ◌>>=◌}
use mo_xx.Payment.Claim.{parse_payment_claim, reconcile}
use mo_xx.Payment.Evidence.{indeterminate_payment_evidence}
use mo_xx.Payment.Initiate.{Execution, grants_claim, settle}

pub data ReconcileCall : Type 0 where
  claimed : Value → String → String → ReconcileCall
  retrieved : Value → ReconcileCall
  projected : Value → Value → Value → ReconcileCall

pub record ReconcileDependencies : Type 0 where
  pub location_id : String
  pub claim : Value → String → String → Exc Execution
  pub retrieve : Value → Exc Value
  pub project : Value → Value → Value → Exc Value

abbrev pub retrieval_command : Value → Value
retrieval_command claim = obj (
    field "provider_payment_id" (prop claim "provider_payment_id") (
      field "order_id" (prop claim "owner_order_id") (
        field "amount_minor" (prop claim "amount_minor") (
          field "currency" (prop claim "currency")
            (field "location_id" (prop claim "location_id") end)))))

-- the projection of what is known, with what it returns
unfoldable pub project_evidence :
    Value → ReconcileDependencies → Value → Effect ReconcileCall Execution
project_evidence claim deps evidence = do
  let attempt = prop claim "payment_attempt_id"
  result ←
      call (projected attempt (prop claim "claim_id") evidence)
        (deps.project attempt (prop claim "claim_id") evidence)
  pure (record { admitted = true; result = result })

module _ (date_finite : String → Bool) where
  unfoldable pub retrieve_claim : Value → ReconcileDependencies → Effect ReconcileCall Execution
  unfolding settle project_evidence
  retrieve_claim claim deps = do
    let command = retrieval_command claim
    answer ← call (retrieved command) (ok (deps.retrieve command))
    evidence ←
        lift (settle date_finite answer (indeterminate_payment_evidence claim "reconciliation"))
    project_evidence claim deps evidence

  -- `!claim?.provider_payment_id`
  abbrev with_claim : Check Value → ReconcileDependencies → Effect ReconcileCall Execution
  with_claim (accept claim) deps =
      if is_truthy (prop claim "provider_payment_id")
      then retrieve_claim claim deps
      else fail "invalid_reconcile_claim"
  with_claim reject deps = fail "invalid_reconcile_claim"
  with_claim (raise e) deps = fail e

  unfoldable pub proceed : Execution → ReconcileDependencies → Effect ReconcileCall Execution
  unfolding retrieve_claim
  proceed execution deps =
      if grants_claim execution
      then with_claim (parse_payment_claim execution.result reconcile) deps
      else pure execution

  unfoldable pub orchestrate :
      Value → String → ReconcileDependencies → Effect ReconcileCall Execution
  unfolding proceed
  orchestrate input authority deps =
      if fits 1 64 deps.location_id
      then (do
        execution ←
            call (claimed input authority deps.location_id)
              (deps.claim input authority deps.location_id)
        proceed execution deps)
      else fail "invalid_payment_location"
