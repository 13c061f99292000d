-- ===== src/Payment/Initiate.antt =====
-- functions/momi-preorder-payment-initiate-v1/src/orchestrate.ts: claim the attempt, deliver the
-- charge, and project what is known of it.
pub mod Settles
pub mod Authority
use mo_xx.Shared.{String, Bool, true, ◌&&◌, if◌then◌else◌, ◌===◌}
use mo_xx.Js.Text.{fits}
use mo_xx.Js.Value.{Value, str, obj, Fields, end, field, prop, is_truthy, strict_eq}
use mo_xx.Js.Check.{Exc, ok, throw, Check, accept, reject, raise}
use mo_xx.Js.Effect.{Effect, pure, fail, lift, call, ◌>>=◌}
use mo_xx.Payment.Claim.{parse_payment_claim, initiate}
use mo_xx.Payment.Evidence.{parse_payment_evidence, indeterminate_payment_evidence}

pub record Execution : Type 0 where
  pub admitted : Bool
  pub result : Value

pub data PaymentCall : Type 0 where
  claimed : Value → String → String → PaymentCall
  delivered : Value → PaymentCall
  projected : Value → Value → Value → PaymentCall

-- What the handler is given: the location that is configured, the two database functions and the
-- provider, each by what it returns or throws at these arguments.
-- `readLocationId` throws nothing: without the setting it gives the empty text.
pub record InitiateDependencies : Type 0 where
  pub location_id : String
  pub claim : Value → String → String → Exc Execution
  pub deliver : Value → Exc Value
  pub project : Value → Value → Value → Exc Value

-- `const { source_token, ...claimInput } = input`
unfoldable pub without : String → Fields → Fields
without k end = end
without k (field j v fs) = let rest = without k fs in if j === k then rest else field j v rest

abbrev pub claim_input : Value → Value
claim_input (obj fs) = obj (without "source_token" fs)
claim_input _ = obj end

abbrev pub delivery_command : Value → Value → Value
delivery_command claim source_token = obj (
    field "payment_attempt_id" (prop claim "payment_attempt_id") (
      field "owner_order_id" (prop claim "owner_order_id") (
        field "location_id" (prop claim "location_id") (
          field "amount_minor" (prop claim "amount_minor")
            (field "currency" (str "USD") (field "source_token" source_token end))))))

-- An execution is passed back as it is unless it is admitted with a claim.
abbrev pub grants_claim : Execution → Bool
grants_claim e =
    e.admitted && is_truthy e.result && strict_eq (prop e.result "disposition") (str "claimed")

-- the projection of what is known, with what it returns
unfoldable pub project_evidence :
    Value → InitiateDependencies → Value → Effect PaymentCall Execution
project_evidence claim deps evidence = do
  let attempt = prop claim "payment_attempt_id"
  result ←
      call (projected attempt (prop claim "claim_id") evidence)
        (deps.project attempt (prop claim "claim_id") evidence)
  pure (record { admitted = true; result = result })

module _ (date_finite : String → Bool) where
  -- The `try` block about the provider's answer: the evidence if it parses, and the fallback if the
  -- answer is no evidence, or the call or the parser throws. A fallback that throws in the block is
  -- thrown by its handler again.
  unfoldable pub settle : Exc Value → Exc Value → Exc Value
  settle (throw e) fallback = fallback
  settle (ok v) fallback = elim (parse_payment_evidence date_finite v) [
    | accept e ↦ ok e
    | reject ↦ fallback
    | raise e ↦ fallback
  ]

  -- the part of the function that holds a claim
  unfoldable pub deliver_claim : Value → Value → InitiateDependencies → Effect PaymentCall Execution
  unfolding settle project_evidence
  deliver_claim claim source_token deps = do
    let command = delivery_command claim source_token
    answer ← call (delivered command) (ok (deps.deliver command))
    evidence ← lift (settle answer (indeterminate_payment_evidence claim "delivery"))
    project_evidence claim deps evidence

  abbrev with_claim : Check Value → Value → InitiateDependencies → Effect PaymentCall Execution
  with_claim (accept claim) token deps = deliver_claim claim token deps
  with_claim reject token deps = fail "invalid_payment_claim"
  with_claim (raise e) token deps = fail e

  -- what follows the call of the database
  unfoldable pub proceed : Value → Execution → InitiateDependencies → Effect PaymentCall Execution
  unfolding deliver_claim
  proceed input execution deps =
      if grants_claim execution
      then with_claim (parse_payment_claim execution.result initiate) (prop input "source_token")
          deps
      else pure execution

  unfoldable pub orchestrate : Value → String → InitiateDependencies → Effect PaymentCall Execution
  unfolding proceed
  orchestrate input authority deps =
      if fits 1 64 deps.location_id
      then (do
        execution ←
            call (claimed (claim_input input) authority deps.location_id)
              (deps.claim (claim_input input) authority deps.location_id)
        proceed input execution deps)
      else fail "invalid_payment_location"
