-- ===== src/Payment/Initiate/Settles.antt =====
-- A claim that is granted is delivered once and projected once, whatever the provider does.
use mo_xx.Payment.Evidence.Fallback.{indeterminate_payment_evidence_valid}
use mo_xx.Payment.Claim.Soundness.{parse_payment_claim_iff}
use mo_xx.Payment.Evidence.Same.{parse_payment_evidence-same}
use mo_xx.Js.Value.{str, prop}
use mo_xx.Js.Check.{bind, raise, throw, reject, ok, accept}
use mo_xx.Shared.{arith, refl, [], ◌∷◌, inr, inl, ◌⊎◌, true, ◌≡◌}
use mo_xx.Payment.Claim.{initiate, parse_payment_claim}
use mo_xx.Payment.Initiate.{
  parse_payment_evidence, fits, Value, Exc, Bool, Check, String, settle, orchestrate, Execution,
  InitiateDependencies, claimed, delivered, projected, grants_claim, claim_input, delivery_command,
}

pub Check-cases {ℓ} :
    {A : Type ℓ} (c : Check A)
    → ((a : A) × (c ≡ accept a)) ⊎ ((c ≡ reject) ⊎ ((e : String) × (c ≡ raise e)))
Check-cases (accept a) = inl (a, refl)
Check-cases reject = inr (inl refl)
Check-cases (raise e) = inr (inr (e, refl))

module _ (date_finite : String → Bool) where
  pub settle-valid :
      (answer : Exc Value) (fallback : Value)
      → parse_payment_evidence date_finite fallback ≡ accept fallback
      → (e : Value) × (settle date_finite answer (ok fallback) ≡ ok e)
        × (parse_payment_evidence date_finite e ≡ accept e)
  unfolding settle
  settle-valid (throw m) fallback h = (fallback, refl, h)
  settle-valid (ok v) fallback h = elim (Check-cases (parse_payment_evidence date_finite v)) [
    | inl (e, p) ↦ (e, rw (p, settle) refl, rw (parse_payment_evidence-same date_finite v e p) at p)
    | inr (inl p) ↦ (fallback, rw (p, settle) refl, h)
    | inr (inr (m, p)) ↦ (fallback, rw (p, settle) refl, h)
  ]

  -- A payment attempt whose claim is granted is delivered to the provider and then projected, each
  -- once, even if the delivery throws or its answer is no evidence, and what is projected is
  -- evidence that the parser lets through; the function returns what the projection does. The
  -- order identifier of the claim has to be a text.
  pub orchestrate-settles :
      (input : Value) (authority : String) (deps : InitiateDependencies) (execution : Execution)
      (claim : Value) (order_id : String)
      → fits 1 64 deps.location_id ≡ true
      → deps.claim (claim_input input) authority deps.location_id ≡ ok execution
      → grants_claim execution ≡ true
      → parse_payment_claim execution.result initiate ≡ accept claim
      → prop claim "owner_order_id" ≡ str order_id
      → let attempt = prop claim "payment_attempt_id" in
        let run = orchestrate date_finite input authority deps in
        (evidence : Value) × (parse_payment_evidence date_finite evidence ≡ accept evidence)
        × (run.calls
            ≡ claimed (claim_input input) authority deps.location_id
              ∷ delivered (delivery_command claim (prop input "source_token"))
              ∷ projected attempt (prop claim "claim_id") evidence
              ∷ [])
        × (run.outcome
            ≡ bind
                (deps.project attempt (prop claim "claim_id") evidence)
                (λ result. ok (record { admitted = true; result = result })))
  unfolding orchestrate
  orchestrate-settles input authority deps execution claim order_id fit asked grants parsed same =
      let g = (parse_payment_claim_iff execution.result claim initiate).0 parsed in
      let (fallback, made, valid, _, _, _, _) =
        indeterminate_payment_evidence_valid date_finite execution.result claim initiate "delivery"
          order_id g refl same in
      let answer = deps.deliver (delivery_command claim (prop input "source_token")) in
      let (evidence, settled, known) = settle-valid answer fallback valid in
      (evidence, known, ground arith, ground arith)
