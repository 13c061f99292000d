-- ===== src/Square/Reconciliation/Observation.antt =====
-- What an observation says of the payment that was retrieved.
use mo_xx.Square.Types.{Disposition, PaymentStatus, missing, matched}
use mo_xx.Square.Retrieval.{ProviderPayment}
use mo_xx.Square.Reconciliation.{
  unknown_observation, number_is, text_is, ExpectedPayment, observed, observe, is_observed,
}
use mo_xx.Shared.{
  eq_refl, refl, ===→eq, ◌∙◌, ◌===◌, Bool-cases, sym, false, Option-cases, inr, ap, inl, ◌↔◌,
  eq_iff, arith, &&-eq-true, ◌⊎◌, ◌≢◌, true, some, none, String, Option, ◌≡◌,
}

-- The payment that was retrieved is the one that was expected.
pub record IsExpected (p : ProviderPayment) (e : ExpectedPayment) : Type 0 where
  pub payment_id : p.provider_payment_id ≡ some e.provider_payment_id
  pub order_id : p.order_id ≡ some e.order_id
  pub location : p.location_id ≡ some e.location_id
  pub amount : number_is p.amount_minor e.amount ≡ true
  pub currency : p.currency ≡ some e.currency

text_is-eq : (v : Option String) (s : String) → text_is v s ≡ true → v ≡ some s
text_is-eq none s h = cc
text_is-eq (some t) s h = ground (arith, eq_iff t s)

is_observed-IsExpected :
    (p : ProviderPayment) (e : ExpectedPayment) → is_observed p e ≡ true → IsExpected p e
unfolding is_observed
is_observed-IsExpected p e h =
    let (h1, _) = &&-eq-true _ _ h in
    let (h2, _) = &&-eq-true _ _ h1 in
    let (h3, f) = &&-eq-true _ _ h2 in
    let (h4, m) = &&-eq-true _ _ h3 in
    let (h5, l) = &&-eq-true _ _ h4 in
    let (a, o) = &&-eq-true _ _ h5 in
    record {
      payment_id = text_is-eq _ _ a;
      order_id = text_is-eq _ _ o;
      location = text_is-eq _ _ l;
      amount = m;
      currency = text_is-eq _ _ f;
    }

-- The payment was retrieved without an error.
abbrev pub IsRetrieved : ProviderPayment → Type 0
IsRetrieved p = (p.error_code ≡ none) ⊎ (p.error_code ≡ some "")

observed-matched :
    (e : ExpectedPayment) (p : ProviderPayment)
    → (observed e p).disposition ≡ matched
    → IsExpected p e
unfolding observed
observed-matched e p h = is_observed-IsExpected p e (ground arith)

observed-missing :
    (e : ExpectedPayment) (p : ProviderPayment) → (observed e p).disposition ≢ missing
unfolding observed
observed-missing e p h = ground arith

not_found_retrieved : (p : ProviderPayment) → IsRetrieved p → p.error_code ≢ some "not_found"
not_found_retrieved p (inl a) b = cc
not_found_retrieved p (inr a) b =
    let same : "" ≡ "not_found" = cc in
    (let off : true ≡ false = sym (eq_refl "") ∙ ap (λ s. s === "") same in cc)

-- The three ways in which an observation is made.
observe-cases :
    (e : ExpectedPayment) (p : ProviderPayment)
    → ((p.error_code ≡ some "not_found")
        × (observe e p ≡ unknown_observation e missing p.provider_request_id "not_found"))
      ⊎ ((IsRetrieved p × (observe e p ≡ observed e p))
          ⊎ ((code : String) × (p.error_code ≡ some code)
              × (p.error_code ≢ some "not_found")
              × (observe e p
                  ≡ unknown_observation e Disposition.indeterminate p.provider_request_id code)))
unfolding observe
observe-cases e p = elim (Option-cases p.error_code) [
  | inl h ↦ inr (inl (inl h, rw h refl))
  | inr (code, h) ↦ elim (Bool-cases (code === "not_found")) [
    | inl gone ↦ inl (h ∙ ap some (===→eq code "not_found" gone), rw (h, gone) refl)
    | inr other ↦ elim (Bool-cases (code === "")) [
      | inl blank ↦ inr (inl (inr (h ∙ ap some (===→eq code "" blank)), rw (h, other, blank) refl))
      | inr full ↦ inr (
          inr (
            code,
            h,
            λ k.
                (let same : code ≡ "not_found" = cc in
                  let off : (code === "not_found") ≡ true = rw same (eq_refl "not_found") in cc),
            rw (h, other, full) refl,
          ))
    ]
  ]
]

-- An observation is matched only if the payment was retrieved without an error and is the expected
-- one, by identifier, order, location, amount and currency; it is missing exactly if the
-- retrieval says so; and its payment status is known only if the payment was retrieved.
pub observe-IsFaithful :
    (e : ExpectedPayment) (p : ProviderPayment)
    → ((observe e p).disposition ≡ matched → IsRetrieved p × IsExpected p e)
      × ((observe e p).disposition ≡ missing ↔ (p.error_code ≡ some "not_found"))
      × ((observe e p).payment_status ≢ PaymentStatus.indeterminate → IsRetrieved p)
observe-IsFaithful e p = elim (observe-cases e p) [
  | inl (gone, o) ↦ (
    λ m. (let d : missing ≡ matched = cc in cc),
    (λ _. gone, λ _. cc),
    λ k. absurd (k (ap (λ o. o.payment_status) o)),
  )
  | inr (inl (fine, o)) ↦ (
    λ m. (fine, observed-matched e p (ap (λ o. o.disposition) (sym o) ∙ m)),
    (
      λ m. absurd (observed-missing e p (ap (λ o. o.disposition) (sym o) ∙ m)),
      λ gone. absurd (not_found_retrieved p fine gone),
    ),
    λ _. fine,
  )
  | inr (inr (code, failed, other, o)) ↦ (
    λ m. (let d : Disposition.indeterminate ≡ matched = cc in cc),
    (λ m. (let d : Disposition.indeterminate ≡ missing = cc in cc), λ gone. absurd (other gone)),
    λ k. absurd (k (ap (λ o. o.payment_status) o)),
  )
]

-- An observation keeps what was expected.
pub observe-expected : (e : ExpectedPayment) (p : ProviderPayment) → (observe e p).expected ≡ e
unfolding observed
observe-expected e p = elim (observe-cases e p) [
  | inl (_, o) ↦ ap (λ o. o.expected) o
  | inr (inl (_, o)) ↦ ap (λ o. o.expected) o
  | inr (inr (_, _, _, o)) ↦ ap (λ o. o.expected) o
]
