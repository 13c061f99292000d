-- ===== src/Preorder/Quote/Answers.antt =====
-- When the quote function calls the database, and what it answers.
use mo_xx.Js.Check.Inversion.{Exc-cases}
use mo_xx.Preorder.Http.{Request}
use mo_xx.Js.Check.{reject, throw, raise, ok, accept, Check, Exc}
use mo_xx.Payment.Initiate.{Execution}
use mo_xx.Js.Value.{prop, is_truthy, Value}
use mo_xx.Js.Effect.Calls.{All-if}
use mo_xx.Shared.{inr, inl, refl, false, arith, not, ◌===◌, All, true, ◌↔◌, ◌≡◌}
use mo_xx.Preorder.Quote.{parse_quote_request, with_body, handle_request, create_parsed, answer}

module _ (creator : Value → Exc Execution) (request : Request) where
  -- A quote is made for the input that the parser accepts.
  pub record IsQuoted (input : Value) : Type 0 where
    pub raw : Value
    pub posted : (request.method === "POST") ≡ true
    pub read : request.json ≡ ok raw
    pub parsed : parse_quote_request raw ≡ accept input

  create_parsed-IsQuoted :
      (c : Check Value)
      → ((input : Value) → c ≡ accept input → IsQuoted input)
      → All IsQuoted (create_parsed creator c).calls
  unfolding create_parsed
  create_parsed-IsQuoted reject h = tt
  create_parsed-IsQuoted (raise e) h = tt
  create_parsed-IsQuoted (accept input) h = elim (Exc-cases (creator input)) [
    | inl (e, x) ↦ rw x (h input refl, tt)
    | inr (e, x) ↦ rw x (h input refl, tt)
  ]

  with_body-IsQuoted :
      (body : Exc Value)
      → (request.method === "POST") ≡ true
      → request.json ≡ body
      → All IsQuoted (with_body creator body).calls
  with_body-IsQuoted (throw e) post read = tt
  with_body-IsQuoted (ok raw) post read =
      create_parsed-IsQuoted (parse_quote_request raw)
        λ input p. record { raw = raw; posted = post; read = read; parsed = p }

  -- The database makes a quote only for a POST whose body is JSON that the parser accepts, and with
  -- what the parser returns.
  pub handle_request-IsQuoted : All IsQuoted (handle_request creator request).calls
  unfolding handle_request
  handle_request-IsQuoted =
      All-if IsQuoted (request.method === "OPTIONS") _ _ (λ _. tt)
        λ _.
          All-if IsQuoted (not (request.method === "POST")) _ _ (λ _. tt)
            λ post. with_body-IsQuoted request.json (ground arith) refl

-- A quote is answered with 200 exactly if it was admitted with a result without an error, with 429
-- exactly if it was not admitted, and with 503 exactly if it was admitted without a result.
pub answer_quote_iff :
    (e : Execution)
    → ((answer e).status ≡ 200 ↔ (
        (e.admitted ≡ true)
        × (is_truthy e.result ≡ true)
        × (is_truthy (prop e.result "error") ≡ false)))
      × ((answer e).status ≡ 429 ↔ (e.admitted ≡ false))
      × ((answer e).status ≡ 503 ↔ ((e.admitted ≡ true) × (is_truthy e.result ≡ false)))
unfolding answer
answer_quote_iff e = ground arith
