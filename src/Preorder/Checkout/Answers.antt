-- ===== src/Preorder/Checkout/Answers.antt =====
-- When the checkout functions call the database, and what they answer.
use mo_xx.Js.Effect.Calls.{All-if}
use mo_xx.Js.Check.Inversion.{Exc-cases}
use mo_xx.Square.Types.{or_empty}
use mo_xx.Payment.Initiate.{Execution}
use mo_xx.Preorder.Http.{is_allowed, Request}
use mo_xx.Js.Check.{throw, Exc, reject, ok, raise, accept, Check}
use mo_xx.Js.Value.{prop, is_truthy, Value}
use mo_xx.Shared.{not, arith, some, refl, false, inl, ◌===◌, inr, ◌↔◌, true, All, ◌≡◌}
use mo_xx.Preorder.Checkout.{
  with_body, ServiceCall, Executor, Service, handle_request, execute_parsed, answer,
}

-- A request that reaches the database.
pub record IsAdmitted (parse : Value → Check Value) (request : Request) (input : Value)
    : Type 0 where
  pub raw : Value
  pub allowed : is_allowed request.origin ≡ true
  pub posted : (request.method === "POST") ≡ true
  pub read : request.json ≡ ok raw
  pub parsed : parse raw ≡ accept input

module _ (s : Service) (executor : Executor) (request : Request) where
  -- The database is called with the parsed input of a request that is admitted, and its authority.
  abbrev pub IsServed : ServiceCall → Type 0
  IsServed c = IsAdmitted s.parse request c.0 × (c.1 ≡ or_empty request.authority)

  execute_parsed-IsServed :
      (c : Check Value)
      → ((input : Value) → c ≡ accept input → IsAdmitted s.parse request input)
      → All IsServed (execute_parsed s executor request c).calls
  unfolding execute_parsed
  execute_parsed-IsServed reject h = tt
  execute_parsed-IsServed (raise e) h = tt
  execute_parsed-IsServed (accept input) h =
      let authority = or_empty request.authority in
      elim (Exc-cases (executor input authority)) [
        | inl (e, x) ↦ rw x ((h input refl, refl), tt)
        | inr (e, x) ↦ rw x ((h input refl, refl), tt)
      ]

  with_body-IsServed :
      (body : Exc Value)
      → is_allowed request.origin ≡ true
      → (request.method === "POST") ≡ true
      → request.json ≡ body
      → All IsServed (with_body s executor request body).calls
  with_body-IsServed (throw e) allowed post read = tt
  with_body-IsServed (ok raw) allowed post read =
      execute_parsed-IsServed (s.parse raw)
        λ input p. record { raw = raw; allowed = allowed; posted = post; read = read; parsed = p }

  -- The database is called only for a request from an allowed origin, by POST, whose body is JSON that
  -- the function's parser accepts, and then with what the parser returns and the request's authority.
  pub handle_request-IsServed : All IsServed (handle_request s executor request).calls
  unfolding handle_request
  handle_request-IsServed =
      All-if IsServed (not (is_allowed request.origin)) _ _ (λ _. tt)
        λ allowed.
          All-if IsServed (request.method === "OPTIONS") _ _ (λ _. tt)
            λ _.
              All-if IsServed (not (request.method === "POST")) _ _ (λ _. tt)
                λ post. with_body-IsServed request.json (ground arith) (ground arith) refl

  -- An execution is answered with 200 exactly if it was admitted with a result without an error, and
  -- with 429 and a time to retry after exactly if it was not admitted.
  pub answer_iff :
      (e : Execution)
      → ((answer s request e).status ≡ 200 ↔ (
          (e.admitted ≡ true)
          × (is_truthy e.result ≡ true)
          × (is_truthy (prop e.result "error") ≡ false)))
        × ((answer s request e).status ≡ 429 ↔ (e.admitted ≡ false))
        × ((answer s request e).retry_after ≡ some "60" ↔ (e.admitted ≡ false))
  unfolding answer
  answer_iff e = ground arith
