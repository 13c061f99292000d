-- ===== src/Payment/Reconcile/Authority.antt =====
-- What each call of a reconciliation rests on, on every branch.
use mo_xx.Payment.Evidence.{indeterminate_payment_evidence}
use mo_xx.Payment.Claim.Soundness.{parse_payment_claim_iff, IsGranted}
use mo_xx.Payment.Claim.{reconcile, parse_payment_claim}
use mo_xx.Js.Text.{fits}
use mo_xx.Js.Effect.Calls.{All-lift, All-continue, All-call, All-if}
use mo_xx.Js.Check.{reject, raise, accept, ok, Check}
use mo_xx.Payment.Reconcile.{
  projected, claimed, with_claim, retrieval_command, retrieved, retrieve_claim, project_evidence,
  proceed, orchestrate, ReconcileCall, ReconcileDependencies,
}
use mo_xx.Js.Value.{prop, is_truthy, Value}
use mo_xx.Shared.{refl, arith, true, All, Bool, String, ◌≡◌}
use mo_xx.Payment.Initiate.{settle, Execution, grants_claim}

-- The database answered this request with an admitted execution that grants the claim.
pub record Grants (input : Value) (authority : String) (deps : ReconcileDependencies)
    (claim : Value) : Type 0 where
  pub execution : Execution
  pub answered : deps.claim input authority deps.location_id ≡ ok execution
  pub admitted : execution.admitted ≡ true
  pub granted : IsGranted execution.result claim reconcile

module _ (input : Value) (authority : String) (deps : ReconcileDependencies) where
  -- A retrieval and a projection are made for a claim that was granted alone, at its own identifiers,
  -- and only if it names a payment of the provider's.
  abbrev pub IsPermitted : ReconcileCall → Type 0
  IsPermitted (claimed v a l) =
      (v ≡ input) × (a ≡ authority) × (l ≡ deps.location_id) × (fits 1 64 l ≡ true)
  IsPermitted (retrieved command) =
      (claim : Value) × Grants input authority deps claim
      × (is_truthy (prop claim "provider_payment_id") ≡ true)
      × (command ≡ retrieval_command claim)
  IsPermitted (projected attempt claim_id evidence) =
      (claim : Value) × Grants input authority deps claim
      × (is_truthy (prop claim "provider_payment_id") ≡ true)
      × (attempt ≡ prop claim "payment_attempt_id")
      × (claim_id ≡ prop claim "claim_id")

module _ (date_finite : String → Bool) (input : Value) (authority : String)
    (deps : ReconcileDependencies) where
  project_evidence-IsPermitted :
      (claim evidence : Value)
      → Grants input authority deps claim
      → is_truthy (prop claim "provider_payment_id") ≡ true
      → All (IsPermitted input authority deps) (project_evidence claim deps evidence).calls
  unfolding project_evidence
  project_evidence-IsPermitted claim evidence g t =
      All-continue (IsPermitted input authority deps)
        (deps.project (prop claim "payment_attempt_id") (prop claim "claim_id") evidence) _ _
        ((claim, g, t, refl, refl), tt) (λ result _. tt)

  retrieve_claim-IsPermitted :
      (claim : Value)
      → Grants input authority deps claim
      → is_truthy (prop claim "provider_payment_id") ≡ true
      → All (IsPermitted input authority deps) (retrieve_claim date_finite claim deps).calls
  unfolding retrieve_claim
  retrieve_claim-IsPermitted claim g t = (
    (claim, g, t, refl),
    All-lift (IsPermitted input authority deps)
        (settle date_finite (deps.retrieve (retrieval_command claim))
          (indeterminate_payment_evidence claim "reconciliation"))
        (project_evidence claim deps)
        (λ evidence _. project_evidence-IsPermitted claim evidence g t),
  )

  with_claim-IsPermitted :
      (execution : Execution) (c : Check Value)
      → deps.claim input authority deps.location_id ≡ ok execution
      → execution.admitted ≡ true
      → parse_payment_claim execution.result reconcile ≡ c
      → All (IsPermitted input authority deps) (with_claim date_finite c deps).calls
  with_claim-IsPermitted execution (accept claim) answered admitted parsed =
      let g : Grants input authority deps claim = record {
        execution = execution;
        answered = answered;
        admitted = admitted;
        granted = (parse_payment_claim_iff execution.result claim reconcile).0 parsed;
      } in
      All-if (IsPermitted input authority deps) (is_truthy (prop claim "provider_payment_id")) _ _
        (λ t. retrieve_claim-IsPermitted claim g t) (λ _. tt)
  with_claim-IsPermitted execution reject answered admitted parsed = tt
  with_claim-IsPermitted execution (raise e) answered admitted parsed = tt

  proceed-IsPermitted :
      (execution : Execution)
      → deps.claim input authority deps.location_id ≡ ok execution
      → All (IsPermitted input authority deps) (proceed date_finite execution deps).calls
  unfolding proceed
  proceed-IsPermitted execution answered =
      All-if (IsPermitted input authority deps) (grants_claim execution) _ _
        (λ grants. with_claim-IsPermitted execution _ answered (ground arith) refl) (λ _. tt)

  -- Whatever the database and the provider do, a reconciliation asks the provider and projects only
  -- for a claim that the database granted to this request and that names a payment of the
  -- provider's, and at the claim's own identifiers.
  pub orchestrate-IsPermitted :
      All (IsPermitted input authority deps) (orchestrate date_finite input authority deps).calls
  unfolding orchestrate
  orchestrate-IsPermitted =
      let permitted = IsPermitted input authority deps in
      All-if permitted (fits 1 64 deps.location_id) _ _
        (λ fit.
          All-call permitted _ _ _ (refl, refl, refl, fit)
            λ execution answered. proceed-IsPermitted execution answered)
        (λ _. tt)
