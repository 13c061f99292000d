-- ===== src/Square/Delivery/Evidence.antt =====
-- When the evidence of a charge says that it is matched.
use mo_xx.Js.Effect.Calls.{continue-eq-ok}
use mo_xx.Js.Text.{is_api_version}
use mo_xx.Js.Check.Inversion.{strict_eq_of_str, Exc-cases, bind-eq-ok}
use mo_xx.Js.Check.{bind, throw, get, Exc, ok}
use mo_xx.Shared.{
  sym, ◌++◌, ap, ◌∙◌, not, ◌||◌, ◌===◌, [], ◌∷◌, false, subst, if◌then◌else◌, inr, &&-eq-true, true,
  inl, refl, arith, Bool-cases, ◌≢◌, ◌≡◌, String,
}
use mo_xx.Js.Value.{strict_eq, field_of, str, undefined, prop, is_truthy, arr, null, Value}
use mo_xx.Square.Types.{
  is_setting, disposition_text, or_empty, Disposition, Environment, SquareRequest, dated,
  SquareResponse, matched, Recovery, PaymentReceipt, PaymentCommand, World,
}
use mo_xx.Square.Delivery.{
  or_else, assert_payment_command, payment_receipt, execute_square_payment, execute_payment,
  build_delivery_evidence, payment_request, send_payment, or_retrieve, unknown_receipt, has_length,
  classify_square_payment, all_method_errors, classify_square_envelope, classify_dated,
  delivery_disposition, classify_square_errors, read_answer,
}
use mo_xx.Square.Delivery.Matching.{
  classify_dated-unknown, is_payment_match-Matches, Matches, is_known,
}
use mo_xx.Js.Effect.{pure, Effect}

-- A receipt without an identifier or a time is not matched, nor is one for an operator.
delivery_disposition-null :
    (w : World) (r : PaymentReceipt)
    → r.provider_payment_id ≡ null
    → delivery_disposition w r ≢ matched
unfolding delivery_disposition
delivery_disposition-null w r h = rw h (λ e. cc)

delivery_disposition-operator :
    (w : World) (r : PaymentReceipt)
    → r.recovery ≡ Recovery.operator_review
    → delivery_disposition w r ≢ matched
unfolding delivery_disposition
delivery_disposition-operator w r h = ground arith

classify_square_errors-null :
    (errors : Value) (r : PaymentReceipt)
    → classify_square_errors errors ≡ ok r
    → r.provider_payment_id ≡ null
unfolding classify_square_errors
classify_square_errors-null (arr xs) r h =
    let (every, _, same) = bind-eq-ok (all_method_errors xs) _ h in ground arith
classify_square_errors-null v r h = cc

abbrev without_payment : Value → Exc PaymentReceipt
without_payment errors =
    if has_length errors
    then classify_square_errors errors
    else ok (unknown_receipt Recovery.operator_review)

without_payment-null :
    (errors : Value) (r : PaymentReceipt)
    → without_payment errors ≡ ok r
    → r.provider_payment_id ≡ null
without_payment-null errors r h = elim (Bool-cases (has_length errors)) [
  | inl q ↦ classify_square_errors-null errors r (rw q at h)
  | inr q ↦ ground arith
]

module _ (w : World) (c : PaymentCommand) (location_id : String) where
  classify_dated-matched :
      (payment updated_at : Value)
      → delivery_disposition w (classify_dated payment c location_id updated_at) ≡ matched
      → Matches payment c location_id
  classify_dated-matched payment updated_at h =
      elim (Bool-cases (is_known payment c location_id updated_at)) [
        | inl k ↦ is_payment_match-Matches payment c location_id (&&-eq-true _ _ k).1
        | inr k ↦ absurd (
            delivery_disposition-operator w (classify_dated payment c location_id updated_at)
              (classify_dated-unknown payment c location_id updated_at k).1 h)
      ]

  classify_square_envelope-matched :
      (payment errors : Value) (r : PaymentReceipt)
      → classify_square_envelope w.date_finite payment errors c location_id ≡ ok r
      → delivery_disposition w r ≡ matched
      → (is_truthy payment ≡ true) × Matches payment c location_id
  unfolding classify_square_envelope
  classify_square_envelope-matched payment errors r h m = elim (Bool-cases (is_truthy payment)) [
    | inl p ↦
        let h' : classify_square_payment w.date_finite payment c location_id ≡ ok r = rw p at h in
        let (u, _, same) =
          bind-eq-ok (dated w.date_finite (prop payment "updated_at"))
            (λ u. ok (classify_dated payment c location_id u)) h' in
        let same' : r ≡ classify_dated payment c location_id u = cc same in
        (
          p,
          classify_dated-matched payment u
              (subst (λ x. delivery_disposition w x ≡ matched) same' m),
        )
    | inr p ↦
        let h' : without_payment errors ≡ ok r = rw p at h in
        absurd (delivery_disposition-null w r (without_payment-null errors r h') m)
  ]

  -- the payment of an answer that counts as matched
  pub record IsConfirmed (response : SquareResponse) : Type 0 where
    pub envelope : Value
    pub is_ok : response.is_ok ≡ true
    pub answered : response.json ≡ ok envelope
    pub matches : Matches (prop envelope "payment") c location_id

  read_answer-matched :
      (response : SquareResponse) (r : PaymentReceipt)
      → read_answer w.date_finite response c location_id ≡ ok r
      → delivery_disposition w r ≡ matched
      → IsConfirmed response
  unfolding read_answer delivery_disposition
  read_answer-matched response r h m =
      let (envelope, answered, h1) = bind-eq-ok response.json _ h in
      let (errors, _, h2) = bind-eq-ok (get envelope "errors") _ h1 in
      let (inner, classified, h3) =
        bind-eq-ok
          (classify_square_envelope w.date_finite
            (if response.is_ok then prop envelope "payment" else undefined) errors c location_id)
          (λ r. ok (record r { provider_request_id = response.request_id })) h2 in
      let same : record inner { provider_request_id = response.request_id } ≡ r = cc h3 in
      let m' : delivery_disposition w inner ≡ matched = cc in
      let (truthy, matches) =
        classify_square_envelope-matched
          (if response.is_ok then prop envelope "payment" else undefined) errors inner classified
          m' in
      elim (Bool-cases response.is_ok) [
        | inl good ↦ record {
          envelope = envelope;
          is_ok = good;
          answered = answered;
          matches = rw good at matches;
        }
        | inr bad ↦ (let off : false ≡ true = rw bad at truthy in cc)
      ]

  -- The body of a charge, as the provider reads it.
  pub record Asks (body : Value) : Type 0 where
    pub key : prop body "idempotency_key" ≡ str c.payment_attempt_id
    pub source : prop body "source_id" ≡ str c.source_token
    pub charged : prop (prop body "amount_money") "amount" ≡ c.amount_minor
    pub money : prop (prop body "amount_money") "currency" ≡ str c.currency
    pub place : prop body "location_id" ≡ str location_id
    pub order : prop body "reference_id" ≡ str c.owner_order_id

  payment_request-Asks :
      (access_token api_version : String)
      → Asks (payment_request c location_id access_token api_version).body
  unfolding field_of
  payment_request-Asks access_token api_version = record {
    key = refl;
    source = refl;
    charged = refl;
    money = refl;
    place = refl;
    order = refl;
  }

  -- What stands behind an evidence that says matched.
  pub record IsBacked (run : Effect SquareRequest Value) (evidence : Value) : Type 0 where
    pub request : SquareRequest
    pub response : SquareResponse
    pub sent : run.calls ≡ request ∷ []
    pub asked : Asks request.body
    pub fetched : w.fetch request ≡ ok response
    pub confirmed : IsConfirmed response
    pub order_id : prop evidence "order_id" ≡ str c.owner_order_id
    pub amount : prop evidence "amount_minor" ≡ c.amount_minor

  or_retrieve-matched :
      (answer : Exc PaymentReceipt)
      → delivery_disposition w (or_retrieve answer) ≡ matched
      → answer ≡ ok (or_retrieve answer)
  unfolding delivery_disposition
  or_retrieve-matched (ok r) h = refl
  or_retrieve-matched (throw e) h = cc

  pub record IsSent (run : Effect SquareRequest PaymentReceipt) : Type 0 where
    pub request : SquareRequest
    pub response : SquareResponse
    pub sent : run.calls ≡ request ∷ []
    pub asked : Asks request.body
    pub fetched : w.fetch request ≡ ok response
    pub confirmed : IsConfirmed response

  send_payment-matched :
      (access_token api_version : String) (r : PaymentReceipt)
      → (send_payment w c location_id access_token api_version).outcome ≡ ok r
      → delivery_disposition w r ≡ matched
      → IsSent (send_payment w c location_id access_token api_version)
  unfolding send_payment
  send_payment-matched access_token api_version r h m =
      let request = payment_request c location_id access_token api_version in
      let answer = bind (w.fetch request) (λ r. read_answer w.date_finite r c location_id) in
      let same : or_retrieve answer ≡ r = cc h in
      let m' : delivery_disposition w (or_retrieve answer) ≡ matched = rw same m in
      let (response, fetched, read) =
        bind-eq-ok (w.fetch request) (λ r. read_answer w.date_finite r c location_id)
          (or_retrieve-matched answer m') in
      record {
        request = request;
        response = response;
        sent = refl;
        asked = payment_request-Asks access_token api_version;
        fetched = fetched;
        confirmed = read_answer-matched response (or_retrieve answer) read m';
      }

  execute_square_payment-matched :
      (access_token api_version : String) (r : PaymentReceipt)
      → (execute_square_payment w c location_id access_token api_version).outcome ≡ ok r
      → delivery_disposition w r ≡ matched
      → IsSent (execute_square_payment w c location_id access_token api_version)
  unfolding execute_square_payment
  execute_square_payment-matched access_token api_version r h m =
      elim (Exc-cases (assert_payment_command c)) [
        | inl (u, asserted) ↦
            elim (Bool-cases
              (location_id === "" || access_token === "" || not (is_api_version api_version))) [
                | inl bad ↦
                    (let off : throw "invalid_square_configuration" ≡ ok r =
                        rw (asserted, bad) at h in
                      cc)
                | inr good ↦
                    rw (asserted, good)
                      (send_payment-matched access_token api_version r (rw (asserted, good) at h) m)
              ]
        | inr (e, refused) ↦ (let off : throw e ≡ ok r = rw refused at h in cc)
      ]

  payment_receipt-matched :
      (env : Environment) (r : PaymentReceipt)
      → (payment_receipt w env c location_id).outcome ≡ ok r
      → delivery_disposition w r ≡ matched
      → IsSent (payment_receipt w env c location_id)
  unfolding payment_receipt
  payment_receipt-matched env r h m =
      elim (Bool-cases
        (or_empty env.access_token === "" || not (is_setting env.location_id location_id))) [
          | inl bad ↦
              let same : ok (unknown_receipt Recovery.operator_review) ≡ ok r = rw bad at h in
              let none_of : r.provider_payment_id ≡ null = cc in
              absurd (delivery_disposition-null w r none_of m)
          | inr good ↦ rw good (
              execute_square_payment-matched (or_empty env.access_token)
                (or_else env.api_version "2026-07-15") r (rw good at h) m)
        ]

  evidence-matched :
      (r : PaymentReceipt)
      → prop (build_delivery_evidence w c location_id r) "disposition" ≡ str "matched"
      → delivery_disposition w r ≡ matched
  unfolding build_delivery_evidence field_of strict_eq
  evidence-matched r h = go (delivery_disposition w r) h
    where
      go : (d : Disposition) → str (disposition_text d) ≡ str "matched" → d ≡ matched
      go matched h = refl
      go d h = (let off : false ≡ true = strict_eq_of_str h in cc)

  -- Evidence of a charge that says matched rests on one request, whose body asks for the command's
  -- amount, currency, order, location and source under the attempt as its idempotency key, and
  -- which the provider answered well with a payment of the command's order, location, amount and
  -- currency; the evidence names the command's order and amount.
  pub execute_payment-matched :
      (env : Environment) (evidence : Value)
      → (execute_payment w env c location_id).outcome ≡ ok evidence
      → prop evidence "disposition" ≡ str "matched"
      → IsBacked (execute_payment w env c location_id) evidence
  unfolding execute_payment build_delivery_evidence field_of
  execute_payment-matched env evidence h m =
      let run = payment_receipt w env c location_id in
      let (r, received, built, calls) =
        continue-eq-ok run.outcome run.calls (λ r. pure (build_delivery_evidence w c location_id r))
          h in
      let same : build_delivery_evidence w c location_id r ≡ evidence = cc built in
      let backed =
        payment_receipt-matched env r received
          (evidence-matched r (subst (λ e. prop e "disposition" ≡ str "matched") (sym same) m)) in
      record {
        request = backed.request;
        response = backed.response;
        sent = calls ∙ ap (λ cs. cs ++ []) backed.sent;
        asked = backed.asked;
        fetched = backed.fetched;
        confirmed = backed.confirmed;
        order_id = ap (λ e. prop e "order_id") (sym same);
        amount = ap (λ e. prop e "amount_minor") (sym same);
      }
