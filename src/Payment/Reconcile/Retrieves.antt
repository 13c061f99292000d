-- ===== src/Payment/Reconcile/Retrieves.antt =====
-- A claim that is granted is retrieved once and projected once, whatever the provider does.
use mo_xx.Payment.Evidence.Fallback.{indeterminate_payment_evidence_valid}
use mo_xx.Payment.Claim.Soundness.{parse_payment_claim_iff}
use mo_xx.Payment.Evidence.{parse_payment_evidence}
use mo_xx.Payment.Claim.{reconcile, parse_payment_claim}
use mo_xx.Js.Check.{bind, accept, ok}
use mo_xx.Js.Text.{fits}
use mo_xx.Js.Value.{str, prop, is_truthy, Value}
use mo_xx.Payment.Reconcile.{
  projected, retrieval_command, retrieved, claimed, ReconcileDependencies, orchestrate,
}
use mo_xx.Shared.{refl, arith, [], ◌∷◌, true, Bool, String, ◌≡◌}
use mo_xx.Payment.Initiate.{Execution, grants_claim}
use mo_xx.Payment.Initiate.Settles.{settle-valid}

module _ (date_finite : String → Bool) where
  -- A reconciliation whose claim is granted with the identifier of a payment of the provider's asks
  -- the provider once and then projects once, even if the retrieval throws or its answer is no
  -- evidence, and what is projected is evidence that the parser lets through; the function returns
  -- what the projection does. The order identifier of the claim has to be a text.
  pub orchestrate-retrieves :
      (input : Value) (authority : String) (deps : ReconcileDependencies) (execution : Execution)
      (claim : Value) (order_id : String)
      → fits 1 64 deps.location_id ≡ true
      → deps.claim input authority deps.location_id ≡ ok execution
      → grants_claim execution ≡ true
      → parse_payment_claim execution.result reconcile ≡ accept claim
      → is_truthy (prop claim "provider_payment_id") ≡ true
      → prop claim "owner_order_id" ≡ str order_id
      → let attempt = prop claim "payment_attempt_id" in
        let run = orchestrate date_finite input authority deps in
        (evidence : Value) × (parse_payment_evidence date_finite evidence ≡ accept evidence)
        × (run.calls
            ≡ claimed input authority deps.location_id
              ∷ retrieved (retrieval_command claim)
              ∷ projected attempt (prop claim "claim_id") evidence
              ∷ [])
        × (run.outcome
            ≡ bind
                (deps.project attempt (prop claim "claim_id") evidence)
                (λ result. ok (record { admitted = true; result = result })))
  unfolding orchestrate
  orchestrate-retrieves input authority deps execution claim order_id fit asked grants parsed known
        same =
      let g = (parse_payment_claim_iff execution.result claim reconcile).0 parsed in
      let (fallback, made, valid, _, _, _, _) =
        indeterminate_payment_evidence_valid date_finite execution.result claim reconcile
          "reconciliation" order_id g refl same in
      let answer = deps.retrieve (retrieval_command claim) in
      let (evidence, settled, sound) = settle-valid date_finite answer fallback valid in
      (evidence, sound, ground arith, ground arith)
