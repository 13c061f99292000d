-- ===== src/Payment/Initiate/Authority.antt =====
-- What each call of the payment orchestration rests on, on every branch.
use mo_xx.Payment.Evidence.{indeterminate_payment_evidence}
use mo_xx.Js.Effect.Calls.{All-continue, All-lift, All-if, All-call}
use mo_xx.Js.Text.{fits}
use mo_xx.Js.Check.{reject, raise, accept, Check, ok}
use mo_xx.Shared.{eq_iff, ◌===◌, refl, if◌then◌else◌, arith, true, All, Bool, ◌≡◌, String}
use mo_xx.Js.Value.{end, field, obj, undefined, prop, Fields, field_of, Value}
use mo_xx.Payment.Claim.{initiate, parse_payment_claim}
use mo_xx.Payment.Claim.Soundness.{parse_payment_claim_iff, IsGranted}
use mo_xx.Payment.Initiate.{
  project_evidence, settle, deliver_claim, with_claim, proceed, orchestrate, Execution,
  InitiateDependencies, claimed, delivered, projected, grants_claim, claim_input, delivery_command,
  PaymentCall, without,
}

-- `const { source_token, ...claimInput } = input` drops the token and keeps the rest.
pub field_of-without :
    (k j : String) (fs : Fields)
    → field_of (without k fs) j ≡ (if k === j then undefined else field_of fs j)
unfolding without field_of
field_of-without k j end = ground arith
field_of-without k j (field i v fs) =
    ground (arith, field_of-without k j fs, eq_iff i k, eq_iff i j, eq_iff k j)

-- The database answered this request with an admitted execution that grants the claim.
pub record Grants (input : Value) (authority : String) (deps : InitiateDependencies) (claim : Value)
    : Type 0 where
  pub execution : Execution
  pub answered : deps.claim (claim_input input) authority deps.location_id ≡ ok execution
  pub admitted : execution.admitted ≡ true
  pub granted : IsGranted execution.result claim initiate

module _ (input : Value) (authority : String) (deps : InitiateDependencies) where
  -- The claim is asked for without the source token. A delivery and a projection are made for a
  -- claim that was granted alone, at its own identifiers.
  abbrev pub IsAuthorised : PaymentCall → Type 0
  IsAuthorised (claimed v a l) =
      (v ≡ claim_input input)
      × (a ≡ authority)
      × (l ≡ deps.location_id)
      × (fits 1 64 l ≡ true)
      × (prop v "source_token" ≡ undefined)
  IsAuthorised (delivered command) =
      (claim : Value) × Grants input authority deps claim
      × (command ≡ delivery_command claim (prop input "source_token"))
  IsAuthorised (projected attempt claim_id evidence) =
      (claim : Value) × Grants input authority deps claim
      × (attempt ≡ prop claim "payment_attempt_id")
      × (claim_id ≡ prop claim "claim_id")

claim_input-source_token : (input : Value) → prop (claim_input input) "source_token" ≡ undefined
unfolding field_of
claim_input-source_token (obj fs) = rw field_of-without
claim_input-source_token v = ground arith

module _ (date_finite : String → Bool) (input : Value) (authority : String)
    (deps : InitiateDependencies) where
  project_evidence-IsAuthorised :
      (claim evidence : Value)
      → Grants input authority deps claim
      → All (IsAuthorised input authority deps) (project_evidence claim deps evidence).calls
  unfolding project_evidence
  project_evidence-IsAuthorised claim evidence g =
      All-continue (IsAuthorised input authority deps)
        (deps.project (prop claim "payment_attempt_id") (prop claim "claim_id") evidence) _ _
        ((claim, g, refl, refl), tt) (λ result _. tt)

  deliver_claim-IsAuthorised :
      (claim : Value)
      → Grants input authority deps claim
      → All
          (IsAuthorised input authority deps)
          (deliver_claim date_finite claim (prop input "source_token") deps).calls
  unfolding deliver_claim
  deliver_claim-IsAuthorised claim g = (
    (claim, g, refl),
    All-lift (IsAuthorised input authority deps)
        (settle date_finite (deps.deliver (delivery_command claim (prop input "source_token")))
          (indeterminate_payment_evidence claim "delivery"))
        (project_evidence claim deps)
        (λ evidence _. project_evidence-IsAuthorised claim evidence g),
  )

  with_claim-IsAuthorised :
      (execution : Execution) (c : Check Value)
      → deps.claim (claim_input input) authority deps.location_id ≡ ok execution
      → execution.admitted ≡ true
      → parse_payment_claim execution.result initiate ≡ c
      → All
          (IsAuthorised input authority deps)
          (with_claim date_finite c (prop input "source_token") deps).calls
  with_claim-IsAuthorised execution (accept claim) answered admitted parsed =
      deliver_claim-IsAuthorised claim (record {
        execution = execution;
        answered = answered;
        admitted = admitted;
        granted = (parse_payment_claim_iff execution.result claim initiate).0 parsed;
      })
  with_claim-IsAuthorised execution reject answered admitted parsed = tt
  with_claim-IsAuthorised execution (raise e) answered admitted parsed = tt

  proceed-IsAuthorised :
      (execution : Execution)
      → deps.claim (claim_input input) authority deps.location_id ≡ ok execution
      → All (IsAuthorised input authority deps) (proceed date_finite input execution deps).calls
  unfolding proceed
  proceed-IsAuthorised execution answered =
      All-if (IsAuthorised input authority deps) (grants_claim execution) _ _
        (λ grants. with_claim-IsAuthorised execution _ answered (ground arith) refl) (λ _. tt)

  -- Whatever the database and the provider do, each call that a payment request makes rests on
  -- what came before it: the claim is asked for without the source token, and a delivery or a
  -- projection is made only for a claim that the database granted to this request.
  pub orchestrate-IsAuthorised :
      All (IsAuthorised input authority deps) (orchestrate date_finite input authority deps).calls
  unfolding orchestrate
  orchestrate-IsAuthorised =
      let authorised = IsAuthorised input authority deps in
      All-if authorised (fits 1 64 deps.location_id) _ _
        (λ fit.
          All-call authorised _ _ _ (refl, refl, refl, fit, claim_input-source_token input)
            λ execution answered. proceed-IsAuthorised execution answered)
        (λ _. tt)
