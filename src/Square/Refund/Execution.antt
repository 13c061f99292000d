-- ===== src/Square/Refund/Execution.antt =====
-- What stands behind a refund that is reported.
use mo_xx.Js.Value.{str, prop, field_of, Value}
use mo_xx.Square.Delivery.{or_else}
use mo_xx.Js.Text.{is_api_version}
use mo_xx.Square.Refund.{
  unknown_refund, read_refund_answer, refund_request, assert_refund_command, or_unknown,
  send_refund, execute_square_refund, execute_refund,
}
use mo_xx.Js.Check.{bind, throw, ok, Exc}
use mo_xx.Square.Types.{
  Recovery, is_setting, or_empty, PaymentStatus, SquareResponse, SquareRequest, RefundReceipt,
  Environment, RefundCommand, World,
}
use mo_xx.Js.Effect.{Effect}
use mo_xx.Square.Refund.Matching.{IsConfirmed, read_refund_answer-refunded}
use mo_xx.Js.Check.Inversion.{Exc-cases, bind-eq-ok}
use mo_xx.Shared.{◌∙◌, not, ◌||◌, ap, ◌===◌, inl, refl, inr, [], Bool-cases, ◌∷◌, String, ◌≡◌}

module _ (w : World) (c : RefundCommand) where
  -- The body of a refund, as the provider reads it.
  pub record Asks (body : Value) : Type 0 where
    pub key : prop body "idempotency_key" ≡ str c.refund_attempt_id
    pub payment : prop body "payment_id" ≡ str c.provider_payment_id
    pub refunded : prop (prop body "amount_money") "amount" ≡ c.amount_minor
    pub money : prop (prop body "amount_money") "currency" ≡ str c.currency

  refund_request-Asks :
      (access_token api_version : String) → Asks (refund_request c access_token api_version).body
  unfolding field_of
  refund_request-Asks access_token api_version = record {
    key = refl;
    payment = refl;
    refunded = refl;
    money = refl;
  }

  -- The refund rests on one request, keyed by its attempt, that the provider confirmed.
  pub record IsRequested (run : Effect SquareRequest RefundReceipt) : Type 0 where
    pub request : SquareRequest
    pub response : SquareResponse
    pub sent : run.calls ≡ request ∷ []
    pub asked : Asks request.body
    pub fetched : w.fetch request ≡ ok response
    pub confirmed : IsConfirmed w.date_finite c response

  or_unknown-refunded :
      (answer : Exc RefundReceipt)
      → (or_unknown c answer).payment_status ≡ PaymentStatus.refunded
      → answer ≡ ok (or_unknown c answer)
  or_unknown-refunded (ok r) h = refl
  or_unknown-refunded (throw e) h = cc

  send_refund-refunded :
      (access_token api_version : String) (r : RefundReceipt)
      → (send_refund w c access_token api_version).outcome ≡ ok r
      → r.payment_status ≡ PaymentStatus.refunded
      → IsRequested (send_refund w c access_token api_version)
  unfolding send_refund
  send_refund-refunded access_token api_version r h m =
      let request = refund_request c access_token api_version in
      let answer = bind (w.fetch request) (λ r. read_refund_answer w.date_finite r c) in
      let same : or_unknown c answer ≡ r = cc h in
      let m' : (or_unknown c answer).payment_status ≡ PaymentStatus.refunded =
        ap (λ r. r.payment_status) same ∙ m in
      let (response, fetched, read) =
        bind-eq-ok (w.fetch request) (λ r. read_refund_answer w.date_finite r c)
          (or_unknown-refunded answer m') in
      record {
        request = request;
        response = response;
        sent = refl;
        asked = refund_request-Asks access_token api_version;
        fetched = fetched;
        confirmed =
            read_refund_answer-refunded w.date_finite c response (or_unknown c answer) read m';
      }

  execute_square_refund-refunded :
      (access_token api_version : String) (r : RefundReceipt)
      → (execute_square_refund w c access_token api_version).outcome ≡ ok r
      → r.payment_status ≡ PaymentStatus.refunded
      → IsRequested (execute_square_refund w c access_token api_version)
  unfolding execute_square_refund
  execute_square_refund-refunded access_token api_version r h m =
      elim (Exc-cases (assert_refund_command c)) [
        | inr (e, refused) ↦ (let off : throw e ≡ ok r = rw refused at h in cc)
        | inl (u, asserted) ↦
            elim (Bool-cases (access_token === "" || not (is_api_version api_version))) [
              | inl bad ↦
                  (let off : throw "invalid_square_configuration" ≡ ok r =
                      rw (asserted, bad) at h in
                    cc)
              | inr good ↦
                  rw (asserted, good)
                    (send_refund-refunded access_token api_version r (rw (asserted, good) at h) m)
            ]
      ]

  -- A refund is reported as refunded only if one request was sent, whose body asks for the
  -- command's payment, amount and currency under the refund's attempt as its idempotency key, and
  -- the provider answered it well with a refund of the command's payment, location, amount and
  -- currency that is approved or completed.
  pub execute_refund-refunded :
      (env : Environment) (r : RefundReceipt)
      → (execute_refund w env c).outcome ≡ ok r
      → r.payment_status ≡ PaymentStatus.refunded
      → IsRequested (execute_refund w env c)
  unfolding execute_refund
  execute_refund-refunded env r h m =
      elim (Bool-cases
        (or_empty env.access_token === "" || not (is_setting env.location_id c.location_id))) [
          | inl bad ↦
              let same : ok (unknown_refund c Recovery.operator_review) ≡ ok r = rw bad at h in
              let off : PaymentStatus.indeterminate ≡ PaymentStatus.refunded = cc in cc
          | inr good ↦ rw good (
              execute_square_refund-refunded (or_empty env.access_token)
                (or_else env.api_version "2026-07-15") r (rw good at h) m)
        ]
