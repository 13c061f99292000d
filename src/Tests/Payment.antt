-- ===== src/Tests/Payment.antt =====
-- The payment orchestration, at a claim that is granted and a provider that fails.
use mo_xx.Js.Check.{◌>>◌}
use mo_xx.Payment.Evidence.Fallback.{indeterminate_payment_evidence_valid}
use mo_xx.Payment.Evidence.{parse_payment_evidence, indeterminate_payment_evidence}
use mo_xx.Tests.{
  order_uuid, sample_claim, payment_input, granting_execution, any_date, granting_result,
}
use mo_xx.Payment.Claim.{reconcile, initiate, parse_payment_claim}
use mo_xx.Js.Value.{end, field, obj, null, strict_eq, str, is_truthy, prop, field_of, Value}
use mo_xx.Js.Text.{is_uuid, fits, utf16_length}
use mo_xx.Js.Check.{bind, to_string, require_ok, require, on_text, throw, accept, ok}
use mo_xx.Shared.{[], ◌∷◌, ◌↔◌, refl, true, All, ◌≡◌}
use mo_xx.Payment.Initiate.{
  delivery_command, delivered, claim_input, PaymentCall, grants_claim, Execution,
  InitiateDependencies, orchestrate,
}
use mo_xx.Payment.Reconcile.{retrieval_command, retrieved, ReconcileCall, ReconcileDependencies}
use mo_xx.Payment.Initiate
use mo_xx.Payment.Reconcile
use mo_xx.Payment.Initiate.Authority.{orchestrate-IsAuthorised, IsAuthorised}
use mo_xx.Payment.Initiate.Settles.{orchestrate-settles}
use mo_xx.Payment.Reconcile.Authority.{orchestrate-IsPermitted, IsPermitted}
use mo_xx.Payment.Reconcile.Retrieves.{orchestrate-retrieves}
use mo_xx.Payment.Claim.Soundness.{parse_payment_claim_iff, IsGranted}

abbrev claim : Value
claim = sample_claim "initiate" null

abbrev reconcile_claim : Value
reconcile_claim = sample_claim "reconcile" (str "PAY1")

abbrev deps : InitiateDependencies
deps = record {
  location_id = "LOC1";
  claim = λ input authority location. ok (granting_execution claim);
  deliver = λ command. throw "network";
  project = λ attempt claim_id evidence. ok (obj (field "receipt" evidence end));
}

abbrev reconcile_deps : ReconcileDependencies
reconcile_deps = record {
  location_id = "LOC1";
  claim = λ input authority location. ok (granting_execution reconcile_claim);
  retrieve = λ command. throw "network";
  project = λ attempt claim_id evidence. ok (obj (field "receipt" evidence end));
}

claim_parses : parse_payment_claim (granting_result claim) initiate ≡ accept claim
unfolding parse_payment_claim field_of strict_eq is_uuid on_text require require_ok ◌>>◌ to_string
    utf16_length
claim_parses = refl

reconcile_claim_parses :
    parse_payment_claim (granting_result reconcile_claim) reconcile ≡ accept reconcile_claim
unfolding parse_payment_claim field_of strict_eq is_uuid on_text require require_ok ◌>>◌ to_string
    utf16_length
reconcile_claim_parses = refl

grants : grants_claim (granting_execution claim) ≡ true
unfolding field_of strict_eq
grants = refl

reconcile_grants : grants_claim (granting_execution reconcile_claim) ≡ true
unfolding field_of strict_eq
reconcile_grants = refl

claim_order : prop claim "owner_order_id" ≡ str order_uuid
unfolding field_of
claim_order = refl

reconcile_claim_order : prop reconcile_claim "owner_order_id" ≡ str order_uuid
unfolding field_of
reconcile_claim_order = refl

reconcile_claim_provider : is_truthy (prop reconcile_claim "provider_payment_id") ≡ true
unfolding field_of
reconcile_claim_provider = refl

location_fits : fits 1 64 "LOC1" ≡ true
unfolding utf16_length
location_fits = refl

parse_payment_claim_iff_example :
    (parse_payment_claim (granting_result claim) initiate ≡ accept claim)
    ↔ IsGranted (granting_result claim) claim initiate
parse_payment_claim_iff_example = parse_payment_claim_iff (granting_result claim) claim initiate

claim-IsGranted : IsGranted (granting_result claim) claim initiate
claim-IsGranted = (parse_payment_claim_iff (granting_result claim) claim initiate).0 claim_parses

indeterminate_payment_evidence_valid_example :
    (evidence : Value) × (indeterminate_payment_evidence claim "delivery" ≡ ok evidence)
    × (parse_payment_evidence any_date evidence ≡ accept evidence)
    × (prop evidence "order_id" ≡ str order_uuid)
    × (prop evidence "amount_minor" ≡ prop claim "amount_minor")
    × (prop evidence "currency" ≡ str "USD")
    × (prop evidence "location_id" ≡ prop claim "location_id")
indeterminate_payment_evidence_valid_example =
    indeterminate_payment_evidence_valid any_date (granting_result claim) claim initiate "delivery"
      order_uuid claim-IsGranted refl claim_order

orchestrate-settles_example :
    let attempt = prop claim "payment_attempt_id" in
    let run = Initiate.orchestrate any_date payment_input "Bearer x" deps in
    (evidence : Value) × (parse_payment_evidence any_date evidence ≡ accept evidence)
    × (run.calls
        ≡ PaymentCall.claimed (claim_input payment_input) "Bearer x" "LOC1"
          ∷ delivered (delivery_command claim (prop payment_input "source_token"))
          ∷ PaymentCall.projected attempt (prop claim "claim_id") evidence
          ∷ [])
    × (run.outcome
        ≡ bind
            (deps.project attempt (prop claim "claim_id") evidence)
            (λ result. ok (record { admitted = true; result = result })))
orchestrate-settles_example =
    orchestrate-settles any_date payment_input "Bearer x" deps (granting_execution claim) claim
      order_uuid location_fits refl grants claim_parses claim_order

orchestrate-IsAuthorised_example :
    All
      (IsAuthorised payment_input "Bearer x" deps)
      (Initiate.orchestrate any_date payment_input "Bearer x" deps).calls
orchestrate-IsAuthorised_example = orchestrate-IsAuthorised any_date payment_input "Bearer x" deps

orchestrate-retrieves_example :
    let attempt = prop reconcile_claim "payment_attempt_id" in
    let run = Reconcile.orchestrate any_date payment_input "Bearer x" reconcile_deps in
    (evidence : Value) × (parse_payment_evidence any_date evidence ≡ accept evidence)
    × (run.calls
        ≡ ReconcileCall.claimed payment_input "Bearer x" "LOC1"
          ∷ retrieved (retrieval_command reconcile_claim)
          ∷ ReconcileCall.projected attempt (prop reconcile_claim "claim_id") evidence
          ∷ [])
    × (run.outcome
        ≡ bind
            (reconcile_deps.project attempt (prop reconcile_claim "claim_id") evidence)
            (λ result. ok (record { admitted = true; result = result })))
orchestrate-retrieves_example =
    orchestrate-retrieves any_date payment_input "Bearer x" reconcile_deps
      (granting_execution reconcile_claim) reconcile_claim order_uuid location_fits refl
      reconcile_grants reconcile_claim_parses reconcile_claim_provider reconcile_claim_order

orchestrate-IsPermitted_example :
    All
      (IsPermitted payment_input "Bearer x" reconcile_deps)
      (Reconcile.orchestrate any_date payment_input "Bearer x" reconcile_deps).calls
orchestrate-IsPermitted_example =
    orchestrate-IsPermitted any_date payment_input "Bearer x" reconcile_deps
