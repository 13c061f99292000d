-- ===== src/Payment/Evidence/Fallback.antt =====
-- When an evidence object passes the parser, and that the fallback evidence does.
use Prim.Native.String
use mo_xx.Shared.{has-All, String, Bool, true, arith, ◌≡◌, refl, ◌≤◌, ◌+◌, ◌⊎◌, inl, ◌∙◌, has}
use mo_xx.Js.Text.{is_uuid, fits, utf16_length, is_currency_code}
use mo_xx.Js.Text.Length.{utf16_length-append, is_uuid-length}
use mo_xx.Js.Value.{Value, null, str, prop, field_of}
use mo_xx.Js.Check.{ok, to_string, accept}
use mo_xx.Js.Check.Inversion.{
  HasText, IsText, IsSafeAmount, HasText-str, require-pass, on_text-pass, text_with_of_IsText,
  null_or_of_IsText, is_positive_safe_of_IsSafeAmount,
}
use mo_xx.Payment.Claim.{ClaimKind}
use mo_xx.Payment.Claim.Soundness.{IsGranted}
use mo_xx.Payment.Evidence.{
  statuses, sources, dispositions, parse_payment_evidence, evidence_object, indeterminate_id,
  indeterminate_object, indeterminate_payment_evidence,
}

-- The parts of an evidence object that the parser lets through.
pub record IsSound (date_finite : String → Bool) (evidence_id source disposition status : String)
    (provider_id updated_at order_id amount currency location_id : Value) : Type 0 where
  pub id_fits : fits 1 192 evidence_id ≡ true
  pub source_known : has sources source ≡ true
  pub disposition_known : has dispositions disposition ≡ true
  pub status_known : has statuses status ≡ true
  pub provider_fits : (provider_id ≡ null) ⊎ IsText (fits 1 192) provider_id
  pub updated_dated : (updated_at ≡ null) ⊎ IsText date_finite updated_at
  pub order_named : IsText is_uuid order_id
  pub amount_safe : IsSafeAmount amount
  pub currency_coded : IsText is_currency_code currency
  pub location_fits : IsText (fits 1 64) location_id

module _ (date_finite : String → Bool) where
  pub parse-evidence_object :
      (evidence_id source disposition status : String)
      (provider_id updated_at order_id amount currency location_id : Value)
      → IsSound date_finite evidence_id source disposition status provider_id updated_at order_id
          amount currency location_id
      → parse_payment_evidence date_finite (
          evidence_object evidence_id source
            (str disposition)
            (str status)
            provider_id
            updated_at
            order_id
            amount
            currency
            location_id)
        ≡ accept (
            evidence_object evidence_id source
              (str disposition)
              (str status)
              provider_id
              updated_at
              order_id
              amount
              currency
              location_id)
  unfolding parse_payment_evidence field_of
  parse-evidence_object i s d t p u o a c l h =
      require-pass _ refl
      ∙ require-pass _ (text_with_of_IsText (fits 1 192) (str i) (i, refl, h.id_fits))
      ∙ on_text-pass _ _ _ (HasText-str _ s h.source_known)
      ∙ on_text-pass _ _ _ (HasText-str _ d h.disposition_known)
      ∙ on_text-pass _ _ _ (HasText-str _ t h.status_known)
      ∙ require-pass _ (null_or_of_IsText h.provider_fits)
      ∙ require-pass _ (null_or_of_IsText h.updated_dated)
      ∙ require-pass _ (text_with_of_IsText _ _ h.order_named)
      ∙ require-pass _ (is_positive_safe_of_IsSafeAmount h.amount_safe)
      ∙ require-pass _ (text_with_of_IsText _ _ h.currency_coded)
      ∙ require-pass _ (text_with_of_IsText _ _ h.location_fits)

indeterminate_id-length :
    (source claim_id : String)
    → utf16_length (indeterminate_id source claim_id)
      ≡ 20 + utf16_length source + utf16_length claim_id
unfolding utf16_length
indeterminate_id-length source claim_id =
    let tail = String.◌++◌ ":indeterminate:" claim_id in
    omega (
      arith,
      utf16_length-append "momi:" (String.◌++◌ source tail),
      utf16_length-append source tail,
      utf16_length-append ":indeterminate:" claim_id,
    )

indeterminate_id-fits :
    (source claim_id : String)
    → utf16_length source ≤ 20
    → is_uuid claim_id ≡ true
    → fits 1 192 (indeterminate_id source claim_id) ≡ true
indeterminate_id-fits source claim_id short named =
    ground (arith, indeterminate_id-length source claim_id, is_uuid-length claim_id named)

source-length : (source : String) → has sources source ≡ true → utf16_length source ≤ 20
unfolding utf16_length
source-length source h = has-All (λ s. utf16_length s ≤ 20) sources source (omega arith) h

-- `String` of a text is the text.
text_of_HasText : (v : Value) (s : String) → v ≡ str s → HasText is_uuid v → is_uuid s ≡ true
unfolding to_string
text_of_HasText v s e (t, read, named) =
    let known : ok s ≡ ok t = rw e at read in let same : s ≡ t = cc in rw same named

usd_coded : is_currency_code "USD" ≡ true
unfolding is_currency_code
usd_coded = refl

module _ (date_finite : String → Bool) (result claim : Value) (kind : ClaimKind)
    (source order_id : String) (g : IsGranted result claim kind) (known : has sources source ≡ true)
    (same : prop claim "owner_order_id" ≡ str order_id) where
  fallback-IsSound :
      (claim_id : String)
      → is_uuid claim_id ≡ true
      → IsSound date_finite
          (indeterminate_id source claim_id)
          source
          "indeterminate"
          "indeterminate"
          (prop claim "provider_payment_id")
          null
          (prop claim "owner_order_id")
          (prop claim "amount_minor")
          (prop claim "currency")
          (prop claim "location_id")
  fallback-IsSound claim_id named = record {
    id_fits = indeterminate_id-fits source claim_id (source-length source known) named;
    source_known = known;
    disposition_known = refl;
    status_known = refl;
    provider_fits = g.provider;
    updated_dated = inl refl;
    order_named = (order_id, same, text_of_HasText _ _ same g.order_id);
    amount_safe = g.amount;
    currency_coded = ("USD", g.currency, usd_coded);
    location_fits = g.location;
  }

-- The fallback evidence of a granted claim is made without an exception, and it passes the parser:
-- it names the claim's order, amount, currency and location. The claim's order
-- identifier has to be a text.
pub indeterminate_payment_evidence_valid :
    (date_finite : String → Bool) (result claim : Value) (kind : ClaimKind) (source : String)
    (order_id : String)
    → IsGranted result claim kind
    → has sources source ≡ true
    → prop claim "owner_order_id" ≡ str order_id
    → (evidence : Value) × (indeterminate_payment_evidence claim source ≡ ok evidence)
      × (parse_payment_evidence date_finite evidence ≡ accept evidence)
      × (prop evidence "order_id" ≡ str order_id)
      × (prop evidence "amount_minor" ≡ prop claim "amount_minor")
      × (prop evidence "currency" ≡ str "USD")
      × (prop evidence "location_id" ≡ prop claim "location_id")
unfolding indeterminate_payment_evidence field_of
indeterminate_payment_evidence_valid date result claim kind source order_id g known same =
    let (claim_id, read, named) = g.claim_id in
    let sound =
      fallback-IsSound date result claim kind source order_id g known same claim_id named in
    (
      indeterminate_object source claim_id claim,
      rw read refl,
      parse-evidence_object date _ _ _ _ _ _ _ _ _ _ sound,
      same,
      refl,
      g.currency,
      refl,
    )
