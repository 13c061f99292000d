-- ===== src/Square/Delivery/Matching.antt =====
-- What a charge's receipt and evidence say of the payment that the provider holds.
use mo_xx.Js.Check.Inversion.{ok-inj, HasText, bind-eq-ok, strict_eq-str}
use mo_xx.Js.Check.{to_string, ok}
use mo_xx.Shared.{
  if◌then◌else◌, sym, inr, ◌∙◌, inl, ◌&&◌, ap, Bool-cases, subst, arith, false, ◌≢◌, &&-eq-true,
  true, ◌≡◌, Bool, String,
}
use mo_xx.Square.Delivery.{
  receipt_of_status, classify_dated, is_payment_match, classify_square_payment,
}
use mo_xx.Js.Value.{null, is_truthy, strict_eq, str, prop, Value}
use mo_xx.Square.Types.{dated, Recovery, PaymentStatus, PaymentReceipt, PaymentCommand}

-- A payment of the provider's that is the one that the command asks for.
pub record Matches (payment : Value) (c : PaymentCommand) (location_id : String) : Type 0 where
  pub order_id : prop payment "reference_id" ≡ str c.owner_order_id
  pub location : prop payment "location_id" ≡ str location_id
  pub amount : strict_eq (prop (prop payment "amount_money") "amount") c.amount_minor ≡ true
  pub currency : prop (prop payment "amount_money") "currency" ≡ str c.currency

pub is_payment_match-Matches :
    (payment : Value) (c : PaymentCommand) (location_id : String)
    → is_payment_match payment c location_id ≡ true
    → Matches payment c location_id
unfolding is_payment_match
is_payment_match-Matches payment c location_id h =
    let (h1, d) = &&-eq-true _ _ h in
    let (h2, m) = &&-eq-true _ _ h1 in
    let (a, b) = &&-eq-true _ _ h2 in
    record {
      order_id = strict_eq-str _ _ a;
      location = strict_eq-str _ _ b;
      amount = m;
      currency = strict_eq-str _ _ d;
    }

-- What a receipt says, by the payment and the command. A known status needs a time of the payment
-- that reads as a text that is a date.
pub record IsFaithful (date_finite : String → Bool) (payment : Value) (c : PaymentCommand)
    (location_id : String) (r : PaymentReceipt) : Type 0 where
  pub known :
      r.payment_status ≢ PaymentStatus.indeterminate
      → Matches payment c location_id
        × (is_truthy r.provider_payment_id ≡ true)
        × (is_truthy r.provider_updated_at ≡ true)
        × (r.provider_payment_id ≡ prop payment "id")
        × (r.provider_updated_at ≡ prop payment "updated_at")
        × HasText date_finite (prop payment "updated_at")
  pub paid : r.payment_status ≡ PaymentStatus.paid → prop payment "status" ≡ str "COMPLETED"
  pub unmatched :
      is_payment_match payment c location_id ≡ false
      → (r.payment_status ≡ PaymentStatus.indeterminate) × (r.recovery ≡ Recovery.operator_review)

-- A time that is kept is the value itself, and its text is a date.
dated-HasText :
    (date_finite : String → Bool) (v u : Value)
    → dated date_finite v ≡ ok u
    → is_truthy u ≡ true
    → (u ≡ v) × HasText date_finite v
dated-HasText date_finite v u h k = elim (Bool-cases (is_truthy v)) [
  | inr f ↦
      let none_of : null ≡ u = ok-inj (rw f at h) in
      let off : is_truthy null ≡ true = subst (λ x. is_truthy x ≡ true) (sym none_of) k in cc
  | inl t ↦
      let (s, read, made) =
        bind-eq-ok (to_string v) (λ s. ok (if date_finite s then v else null)) (rw t at h) in
      elim (Bool-cases (date_finite s)) [
        | inl d ↦ (sym (ok-inj (rw d at made)), (s, read, d))
        | inr d ↦
            let none_of : null ≡ u = ok-inj (rw d at made) in
            let off : is_truthy null ≡ true = subst (λ x. is_truthy x ≡ true) (sym none_of) k in cc
      ]
]

receipt_of_status-paid :
    (status id updated_at : Value)
    → (receipt_of_status status id updated_at).payment_status ≡ PaymentStatus.paid
    → status ≡ str "COMPLETED"
unfolding receipt_of_status
receipt_of_status-paid status id updated_at h = ground (arith, strict_eq-str status "COMPLETED")

receipt_of_status-ids :
    (status id updated_at : Value)
    → let r = receipt_of_status status id updated_at in
      (r.provider_payment_id ≡ id) × (r.provider_updated_at ≡ updated_at)
unfolding receipt_of_status
receipt_of_status-ids status id updated_at = ground arith

module _ (payment : Value) (c : PaymentCommand) (location_id : String) (updated_at : Value) where
  abbrev pub is_known : Bool
  is_known =
      is_truthy (prop payment "id")
      && is_truthy updated_at
      && is_payment_match payment c location_id

  known-IsFaithful :
      (date_finite : String → Bool)
      → dated date_finite (prop payment "updated_at") ≡ ok updated_at
      → is_known ≡ true
      → IsFaithful date_finite payment c location_id
          (receipt_of_status (prop payment "status") (prop payment "id") updated_at)
  known-IsFaithful date_finite made h =
      let (h1, m) = &&-eq-true _ _ h in
      let (a, b) = &&-eq-true _ _ h1 in
      let (same_id, same_time) =
        receipt_of_status-ids (prop payment "status") (prop payment "id") updated_at in
      let (same, readable) =
        dated-HasText date_finite (prop payment "updated_at") updated_at made b in
      record {
        known = λ _. (
          is_payment_match-Matches payment c location_id m,
          ap is_truthy same_id ∙ a,
          ap is_truthy same_time ∙ b,
          same_id,
          same_time ∙ same,
          readable,
        );
        paid = receipt_of_status-paid (prop payment "status") (prop payment "id") updated_at;
        unmatched = λ k. cc;
      }

  classify_dated-known :
      is_known ≡ true
      → receipt_of_status (prop payment "status") (prop payment "id") updated_at
        ≡ classify_dated payment c location_id updated_at
  unfolding classify_dated
  classify_dated-known h = ground arith

  pub classify_dated-unknown :
      is_known ≡ false
      → let r = classify_dated payment c location_id updated_at in
        (r.payment_status ≡ PaymentStatus.indeterminate) × (r.recovery ≡ Recovery.operator_review)
  unfolding classify_dated
  classify_dated-unknown h = ground arith

  classify_dated-IsFaithful :
      (date_finite : String → Bool)
      → dated date_finite (prop payment "updated_at") ≡ ok updated_at
      → IsFaithful date_finite payment c location_id
          (classify_dated payment c location_id updated_at)
  classify_dated-IsFaithful date_finite made = elim (Bool-cases is_known) [
    | inl h ↦
        subst (IsFaithful date_finite payment c location_id) (classify_dated-known h)
          (known-IsFaithful date_finite made h)
    | inr h ↦
        let (status, recovery) = classify_dated-unknown h in
        record {
          known = λ k. absurd (k status);
          paid = λ k. cc;
          unmatched = λ _. (status, recovery);
        }
  ]

-- The receipt of a payment has a known status only if the payment is the command's, and its
-- identifier and time are the payment's own, the time's text being a date; it is paid only if the
-- provider says completed, and a payment that is not the command's leads to an indeterminate
-- receipt for an operator.
pub classify_square_payment-IsFaithful :
    (date_finite : String → Bool) (payment : Value) (c : PaymentCommand) (location_id : String)
    (r : PaymentReceipt)
    → classify_square_payment date_finite payment c location_id ≡ ok r
    → IsFaithful date_finite payment c location_id r
unfolding classify_square_payment
classify_square_payment-IsFaithful date payment c location_id r h =
    let (updated_at, made, same) =
      bind-eq-ok (dated date (prop payment "updated_at"))
        (λ u. ok (classify_dated payment c location_id u)) h in
    let same : classify_dated payment c location_id updated_at ≡ r = cc in
    subst (IsFaithful date payment c location_id) same
      (classify_dated-IsFaithful payment c location_id updated_at date made)
