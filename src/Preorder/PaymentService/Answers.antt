-- ===== src/Preorder/PaymentService/Answers.antt =====
-- When the payment functions act, and what they answer.
use mo_xx.Js.Check.Inversion.{Exc-cases}
use mo_xx.Payment.Reconcile.Authority.{orchestrate-IsPermitted, IsPermitted}
use mo_xx.Payment.Initiate.Authority.{orchestrate-IsAuthorised, IsAuthorised}
use mo_xx.Js.Effect.Calls.{All-if}
use mo_xx.Square.Types.{or_empty}
use mo_xx.Preorder.Requests.{parse_reconcile_request, parse_initiate_request}
use mo_xx.Payment.Reconcile.{ReconcileDependencies}
use mo_xx.Js.Effect.{Effect}
use mo_xx.Payment.Initiate.{InitiateDependencies, Execution}
use mo_xx.Js.Check.{reject, raise, throw, accept, Exc, ok, Check}
use mo_xx.Preorder.Http.{
  empty, respond, not_allowed, error_response, accepts_length, is_allowed, Failure, Request,
}
use mo_xx.Js.Value.{str, strict_eq, prop, is_truthy, Value}
use mo_xx.Payment.Initiate
use mo_xx.Payment.Reconcile
use mo_xx.Shared.{
  ◌≢◌, refl, inr, arith, &&-eq-true, not, leb→le, All-map, inl, false, ◌↔◌, leb, ◌===◌, All, ◌&&◌,
  true, Bool-cases, ◌≤◌, Bool, String, ◌≡◌,
}
use mo_xx.Preorder.PaymentService.{
  payment_unavailable, handle_reconcile, handle_initiate, handle_request, orchestrate_parsed,
  answer, with_body, guard, read_json_body,
}

-- A request that reaches the orchestration.
pub record IsReceived (parse : Value → Check Value) (request : Request) (input : Value)
    : Type 0 where
  pub raw : Value
  pub allowed : is_allowed request.origin ≡ true
  pub posted : (request.method === "POST") ≡ true
  pub sized : request.body_length ≤ 8192
  pub read : request.json ≡ ok raw
  pub parsed : parse raw ≡ accept input

read_json_body-ok :
    (request : Request) (raw : Value)
    → read_json_body request ≡ ok raw
    → (request.body_length ≤ 8192) × (request.json ≡ ok raw)
unfolding read_json_body
read_json_body-ok request raw h =
    elim (Bool-cases (accepts_length 8192 request.content_length && leb request.body_length 8192)) [
      | inl b ↦ (leb→le _ _ (&&-eq-true _ _ b).1, rw b at h)
      | inr b ↦ (let off : throw "invalid_body_size" ≡ ok raw = rw b at h in cc)
    ]

module _ {C : Type 0} (parse : Value → Check Value) (invalid : Failure)
    (orchestrate : Value → String → Effect C Execution) (request : Request) (P : Value → C → Type 0)
    (h : (input : Value)
      → All (P input) (orchestrate input (or_empty request.authority)).calls) where
  -- A call for the parsed input of a request that is received.
  abbrev IsFor : C → Type 0
  IsFor c = (input : Value) × IsReceived parse request input × P input c

  orchestrate_parsed-IsFor :
      (c : Check Value)
      → ((input : Value) → c ≡ accept input → IsReceived parse request input)
      → All IsFor (orchestrate_parsed invalid orchestrate request c).calls
  unfolding orchestrate_parsed guard
  orchestrate_parsed-IsFor reject r = tt
  orchestrate_parsed-IsFor (raise e) r = tt
  orchestrate_parsed-IsFor (accept input) r =
      All-map {Q = IsFor} (orchestrate input (or_empty request.authority)).calls
        (λ c p. (input, r input refl, p)) (h input)

  with_body-IsFor :
      (body : Exc Value)
      → is_allowed request.origin ≡ true
      → (request.method === "POST") ≡ true
      → read_json_body request ≡ body
      → All IsFor (with_body parse invalid orchestrate request body).calls
  with_body-IsFor (throw e) allowed post read = tt
  with_body-IsFor (ok raw) allowed post read =
      let (sized, json) = read_json_body-ok request raw read in
      orchestrate_parsed-IsFor (parse raw) λ input p. record {
        raw = raw;
        allowed = allowed;
        posted = post;
        sized = sized;
        read = json;
        parsed = p;
      }

  handle_request-IsFor : All IsFor (handle_request parse invalid orchestrate request).calls
  unfolding handle_request
  handle_request-IsFor =
      All-if IsFor (not (is_allowed request.origin)) _ _ (λ _. tt)
        λ allowed.
          All-if IsFor (request.method === "OPTIONS") _ _ (λ _. tt)
            λ _.
              All-if IsFor (not (request.method === "POST")) _ _ (λ _. tt)
                λ post. with_body-IsFor (read_json_body request) (ground arith) (ground arith) refl

module _ (date_finite : String → Bool) (request : Request) where
  -- A payment request reaches the database and the provider only if it comes from an allowed origin, by
  -- POST, with a body of at most 8192 bytes that the parser accepts; each call is then one that the
  -- orchestration may make for this input and authority: the charge only for a claim that the database
  -- granted to it.
  pub handle_initiate-IsAuthorised :
      (deps : InitiateDependencies)
      → All
          (λ c.
            (input : Value) × IsReceived parse_initiate_request request input
            × IsAuthorised input (or_empty request.authority) deps c)
          (handle_initiate date_finite deps request).calls
  unfolding handle_initiate
  handle_initiate-IsAuthorised deps =
      handle_request-IsFor parse_initiate_request _
        (λ input authority. Initiate.orchestrate date_finite input authority deps) request
        (λ input. IsAuthorised input (or_empty request.authority) deps)
        (λ input. orchestrate-IsAuthorised date_finite input (or_empty request.authority) deps)

  -- A reconciliation request reaches the database and the provider only if it comes from an allowed
  -- origin, by POST, with a body of at most 8192 bytes that the parser accepts; each call is then
  -- one that the orchestration may make for this input and authority: the provider is asked only
  -- for a claim that the database granted to it.
  pub handle_reconcile-IsPermitted :
      (deps : ReconcileDependencies)
      → All
          (λ c.
            (input : Value) × IsReceived parse_reconcile_request request input
            × IsPermitted input (or_empty request.authority) deps c)
          (handle_reconcile date_finite deps request).calls
  unfolding handle_reconcile
  handle_reconcile-IsPermitted deps =
      handle_request-IsFor parse_reconcile_request _
        (λ input authority. Reconcile.orchestrate date_finite input authority deps) request
        (λ input. IsPermitted input (or_empty request.authority) deps)
        (λ input. orchestrate-IsPermitted date_finite input (or_empty request.authority) deps)

-- An execution is answered with 200 exactly if it was admitted with a result that has a receipt and no
-- error, with 429 exactly if it was not admitted, and with 409 exactly if its error is a conflict.
pub answer_payment_iff :
    (request : Request) (e : Execution)
    → let has_error = is_truthy e.result && is_truthy (prop e.result "error") in
      ((answer request e).status ≡ 200 ↔ (
        (e.admitted ≡ true)
        × (is_truthy e.result ≡ true)
        × (is_truthy (prop e.result "error") ≡ false)
        × (is_truthy (prop e.result "receipt") ≡ true)))
      × ((answer request e).status ≡ 429 ↔ (e.admitted ≡ false))
      × ((answer request e).status ≡ 409 ↔ (
          (e.admitted ≡ true)
          × (has_error ≡ true)
          × (strict_eq (prop e.result "outcome") (str "conflict") ≡ true)))
unfolding answer
answer_payment_iff request e = ground arith

module _ {C : Type 0} (parse : Value → Check Value) (invalid : Failure)
    (orchestrate : Value → String → Effect C Execution) (request : Request) where
  guard-throws : (run : Effect C Execution) (e : String) → (guard request run).outcome ≢ throw e
  unfolding guard
  guard-throws run e h = elim (Exc-cases run.outcome) [
    | inl (x, k) ↦ (let off : ok (answer request x) ≡ throw e = rw k at h in cc)
    | inr (m, k) ↦
        (let off : ok (error_response request 503 payment_unavailable) ≡ throw e = rw k at h in cc)
  ]

  orchestrate_parsed-throws :
      (c : Check Value) (e : String)
      → (orchestrate_parsed invalid orchestrate request c).outcome ≡ throw e
      → c ≡ raise e
  unfolding orchestrate_parsed
  orchestrate_parsed-throws reject e h = cc
  orchestrate_parsed-throws (raise m) e h = cc
  orchestrate_parsed-throws (accept input) e h =
      absurd (guard-throws (orchestrate input (or_empty request.authority)) e h)

  with_body-throws :
      (body : Exc Value) (e : String)
      → read_json_body request ≡ body
      → (with_body parse invalid orchestrate request body).outcome ≡ throw e
      → (raw : Value) × (request.json ≡ ok raw) × (parse raw ≡ raise e)
  with_body-throws (throw m) e read h = cc
  with_body-throws (ok raw) e read h =
      (raw, (read_json_body-ok request raw read).1, orchestrate_parsed-throws (parse raw) e h)

  -- Whatever the database and the provider throw, a payment function answers: an exception that leaves
  -- it is one that its parser threw on the JSON of the body.
  pub handle_request-throws :
      (e : String)
      → (handle_request parse invalid orchestrate request).outcome ≡ throw e
      → (raw : Value) × (request.json ≡ ok raw) × (parse raw ≡ raise e)
  unfolding handle_request
  handle_request-throws e h = elim (Bool-cases (is_allowed request.origin)) [
    | inr a ↦ (let off : ok (error_response request 403 not_allowed) ≡ throw e = rw a at h in cc)
    | inl a ↦ elim (Bool-cases (request.method === "OPTIONS")) [
      | inl b ↦ (let off : ok (respond request 204 empty) ≡ throw e = rw (a, b) at h in cc)
      | inr b ↦ elim (Bool-cases (request.method === "POST")) [
        | inr c ↦
            (let off : ok (error_response request 405 invalid) ≡ throw e = rw (a, b, c) at h in cc)
        | inl c ↦ with_body-throws (read_json_body request) e refl (rw (a, b, c) at h)
      ]
    ]
  ]
