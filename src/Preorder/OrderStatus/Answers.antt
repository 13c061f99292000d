-- ===== src/Preorder/OrderStatus/Answers.antt =====
-- When the status of an order is shown.
use mo_xx.Square.Types.{or_empty}
use mo_xx.Js.Text.{is_uuid_v5}
use mo_xx.Js.Value.{is_truthy}
use mo_xx.Js.Check.{throw, ok, Exc}
use mo_xx.Preorder.Http.{
  fault, empty, respond, not_allowed, error_response, is_allowed, Response, Request,
}
use mo_xx.Shared.{
  false, ◌==◌, ◌∙◌, ap, refl, inl, arith, ◌===◌, inr, true, Bool-cases, String, Option, ◌≡◌,
}
use mo_xx.Preorder.OrderStatus.{StatusRead, StatusReader, handle_status, answer, answer_read}

-- A request for the status of an order that the database lets through.
pub record IsShown (reader : StatusReader) (request : Request) (order_id : Option String)
    : Type 0 where
  pub read : StatusRead
  pub allowed : is_allowed request.origin ≡ true
  pub fetched : (request.method === "GET") ≡ true
  pub named : is_uuid_v5 (or_empty order_id) ≡ true
  pub answered : reader (or_empty order_id) (or_empty request.authority) ≡ ok read
  pub admitted : read.admitted ≡ true
  pub held : is_truthy read.data_value ≡ true

answer_read-shown :
    (request : Request) (x : Exc StatusRead)
    → (answer_read request x).status ≡ 200
    → (r : StatusRead) × (x ≡ ok r) × (r.admitted ≡ true) × (is_truthy r.data_value ≡ true)
unfolding answer
answer_read-shown request (throw e) h = ground arith
answer_read-shown request (ok r) h = (r, refl, ground arith, ground arith)

same_status : (r response : Response) → ok r ≡ ok response → response.status ≡ 200 → r.status ≡ 200
same_status r response h k = let same : r ≡ response = cc in ap (λ r. r.status) same ∙ k

not_shown :
    (r response : Response)
    → ok r ≡ ok response
    → response.status ≡ 200
    → (r.status == 200) ≡ false
    → ⊥
not_shown r response h k d = let same : r.status ≡ 200 = same_status r response h k in ground arith

-- The status of an order is answered with 200 only to an allowed origin, by GET, for an order
-- identifier that is a UUID, if the reader admits the request and has the order under this identifier
-- and the request's authority.
pub handle_status-IsShown :
    (reader : StatusReader) (request : Request) (order_id : Option String) (response : Response)
    → (handle_status reader request order_id).outcome ≡ ok response
    → response.status ≡ 200
    → IsShown reader request order_id
unfolding handle_status
handle_status-IsShown reader request order_id response h k =
    elim (Bool-cases (is_allowed request.origin)) [
      | inr a ↦
          absurd (not_shown (error_response request 403 not_allowed) response (rw a at h) k refl)
      | inl a ↦ elim (Bool-cases (request.method === "OPTIONS")) [
        | inl b ↦ absurd (not_shown (respond request 204 empty) response (rw (a, b) at h) k refl)
        | inr b ↦ elim (Bool-cases (request.method === "GET")) [
          | inr c ↦ absurd (
              not_shown (error_response request 405 (fault "invalid_request" "Method not allowed."))
                response (rw (a, b, c) at h) k refl)
          | inl c ↦ elim (Bool-cases (is_uuid_v5 (or_empty order_id))) [
            | inr d ↦ absurd (
                not_shown
                  (error_response request 400
                    (fault "invalid_request" "The order request is invalid."))
                  response (rw (a, b, c, d) at h) k refl)
            | inl d ↦
                let x = reader (or_empty order_id) (or_empty request.authority) in
                let (r, same, admitted, held) =
                  answer_read-shown request x
                    (same_status (answer_read request x) response (rw (a, b, c, d) at h) k) in
                record {
                  read = r;
                  allowed = a;
                  fetched = c;
                  named = d;
                  answered = same;
                  admitted = admitted;
                  held = held;
                }
          ]
        ]
      ]
    ]
