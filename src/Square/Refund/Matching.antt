-- ===== src/Square/Refund/Matching.antt =====
-- When the receipt of a refund says that the money is refunded.
use mo_xx.Js.Check.Inversion.{strict_eq-str, bind-eq-ok}
use mo_xx.Js.Check.{ok, get}
use mo_xx.Square.Types.{
  Recovery, dated, RefundReceipt, SquareResponse, PaymentStatus, RefundCommand,
}
use mo_xx.Square.Refund.{
  unknown_refund, read_refund_answer, classify_square_refund, is_refund_match,
  classify_refund_dated,
}
use mo_xx.Js.Value.{null, undefined, strict_eq, is_truthy, str, prop, Value}
use mo_xx.Shared.{
  refl, inr, inl, subst, Bool-cases, ◌∙◌, leb, ap, arith, &&-eq-true, ◌⊎◌, if◌then◌else◌, ℕ, true,
  Bool, String, ◌≡◌,
}

-- A refund of the provider's that is the one that the command asks for, and has gone through.
pub record IsRefunded (refund : Value) (c : RefundCommand) : Type 0 where
  pub payment_id : prop refund "payment_id" ≡ str c.provider_payment_id
  pub location : prop refund "location_id" ≡ str c.location_id
  pub amount : strict_eq (prop (prop refund "amount_money") "amount") c.amount_minor ≡ true
  pub currency : prop (prop refund "amount_money") "currency" ≡ str c.currency
  pub status : (prop refund "status" ≡ str "APPROVED") ⊎ (prop refund "status" ≡ str "COMPLETED")

is_refund_match-IsRefunded :
    (refund : Value) (c : RefundCommand) (updated_at : Value)
    → is_refund_match refund c updated_at ≡ true
    → (prop refund "status" ≡ str "APPROVED") ⊎ (prop refund "status" ≡ str "COMPLETED")
    → IsRefunded refund c
unfolding is_refund_match
is_refund_match-IsRefunded refund c updated_at h s =
    let (h1, _) = &&-eq-true _ _ h in
    let (h2, f) = &&-eq-true _ _ h1 in
    let (h3, m) = &&-eq-true _ _ h2 in
    let (h4, l) = &&-eq-true _ _ h3 in
    let (_, p) = &&-eq-true _ _ h4 in
    record {
      payment_id = strict_eq-str _ _ p;
      location = strict_eq-str _ _ l;
      amount = m;
      currency = strict_eq-str _ _ f;
      status = s;
    }

classify_refund_dated-refunded :
    (refund : Value) (c : RefundCommand) (updated_at : Value)
    → (classify_refund_dated refund c updated_at).payment_status ≡ PaymentStatus.refunded
    → (is_refund_match refund c updated_at ≡ true)
      × ((prop refund "status" ≡ str "APPROVED") ⊎ (prop refund "status" ≡ str "COMPLETED"))
unfolding classify_refund_dated
classify_refund_dated-refunded refund c updated_at h = ground (
  arith,
  strict_eq-str (prop refund "status") "APPROVED",
  strict_eq-str (prop refund "status") "COMPLETED",
)

module _ (date_finite : String → Bool) (c : RefundCommand) where
  classify_square_refund-refunded :
      (refund : Value) (r : RefundReceipt)
      → classify_square_refund date_finite refund c ≡ ok r
      → r.payment_status ≡ PaymentStatus.refunded
      → IsRefunded refund c
  unfolding classify_square_refund
  classify_square_refund-refunded refund r h k =
      let (u, _, same) =
        bind-eq-ok (dated date_finite (prop refund "updated_at"))
          (λ u. ok (classify_refund_dated refund c u)) h in
      let same' : classify_refund_dated refund c u ≡ r = cc same in
      let (m, s) =
        classify_refund_dated-refunded refund c u (ap (λ r. r.payment_status) same' ∙ k) in
      is_refund_match-IsRefunded refund c u m s

  -- the answer that makes a receipt refunded
  pub record IsConfirmed (response : SquareResponse) : Type 0 where
    pub envelope : Value
    pub is_ok : response.is_ok ≡ true
    pub answered : response.json ≡ ok envelope
    pub refunded : IsRefunded (prop envelope "refund") c

  read_refund-refunded :
      (status : ℕ) (refund : Value) (r : RefundReceipt)
      → (if is_truthy refund
          then classify_square_refund date_finite refund c
          else ok (
              unknown_refund c
                (if leb 500 status then Recovery.retrieve else Recovery.operator_review)))
        ≡ ok r
      → r.payment_status ≡ PaymentStatus.refunded
      → (is_truthy refund ≡ true) × IsRefunded refund c
  read_refund-refunded status refund r h k = elim (Bool-cases (is_truthy refund)) [
    | inl t ↦ (t, classify_square_refund-refunded refund r (rw t at h) k)
    | inr f ↦
        let same : ok (
              unknown_refund c
                (if leb 500 status then Recovery.retrieve else Recovery.operator_review))
            ≡ ok r =
          rw f at h in
        let off : PaymentStatus.indeterminate ≡ PaymentStatus.refunded = cc in cc
  ]

  refund_of-ok :
      (is_ok : Bool) (envelope refund : Value)
      → (if is_ok then get envelope "refund" else ok undefined) ≡ ok refund
      → is_truthy refund ≡ true
      → (is_ok ≡ true) × (refund ≡ prop envelope "refund")
  refund_of-ok true null refund h t = cc
  refund_of-ok true undefined refund h t = cc
  refund_of-ok true v refund h t = (refl, cc)
  refund_of-ok Bool.false v refund h t = cc

  -- A refund's receipt says refunded only if the provider answered well, with a refund that names the
  -- command's payment, location, amount and currency and that is approved or completed.
  pub read_refund_answer-refunded :
      (response : SquareResponse) (r : RefundReceipt)
      → read_refund_answer date_finite response c ≡ ok r
      → r.payment_status ≡ PaymentStatus.refunded
      → IsConfirmed response
  unfolding read_refund_answer
  read_refund_answer-refunded response r h k =
      let (envelope, answered, h1) = bind-eq-ok response.json _ h in
      let (refund, got, h2) =
        bind-eq-ok (if response.is_ok then get envelope "refund" else ok undefined) _ h1 in
      let (inner, read, h3) =
        bind-eq-ok
          (if is_truthy refund
            then classify_square_refund date_finite refund c
            else ok (
                unknown_refund c (
                  if leb 500 response.status then Recovery.retrieve else Recovery.operator_review)))
          (λ r. ok (record r { provider_request_id = response.request_id })) h2 in
      let same : record inner { provider_request_id = response.request_id } ≡ r = cc h3 in
      let k' : inner.payment_status ≡ PaymentStatus.refunded = cc in
      let (t, refunded) = read_refund-refunded response.status refund inner read k' in
      let (good, named) = refund_of-ok response.is_ok envelope refund got t in
      record {
        envelope = envelope;
        is_ok = good;
        answered = answered;
        refunded = subst (λ v. IsRefunded v c) named refunded;
      }
