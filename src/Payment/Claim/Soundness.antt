-- ===== src/Payment/Claim/Soundness.antt =====
-- parse_payment_claim: what is known of a claim that it lets through.
use mo_xx.Shared.{true, ◌≡◌, refl, ◌⊎◌, ◌↔◌, ◌∙◌, subst}
use mo_xx.Js.Text.{is_uuid, fits}
use mo_xx.Js.Value.{Value, null, str, prop, strict_eq}
use mo_xx.Js.Check.{accept}
use mo_xx.Js.Check.Inversion.{
  HasText, IsText, IsSafeAmount, require-eq-accept, on_text-eq-accept, text_with-eq-true,
  null_or-eq-true, strict_eq-str, require-pass, on_text-pass, text_with_of_IsText,
  null_or_of_IsText, strict_eq_of_str, is_positive_safe_of_IsSafeAmount, is_truthy_of_prop,
  is_positive_safe-eq-true,
}
use mo_xx.Payment.Claim.{ClaimKind, kind_text, check_claim, parse_payment_claim}

-- A claim of the given kind that stands in the result beside the receipt it belongs to.
pub record IsGranted (result claim : Value) (kind : ClaimKind) : Type 0 where
  pub granted : prop result "disposition" ≡ str "claimed"
  pub taken_from : claim ≡ prop result "claim"
  pub kind_is : prop claim "claim_kind" ≡ str (kind_text kind)
  pub claim_id : HasText is_uuid (prop claim "claim_id")
  pub attempt_id : HasText is_uuid (prop claim "payment_attempt_id")
  pub order_id : HasText is_uuid (prop claim "owner_order_id")
  pub same_attempt :
      strict_eq
        (prop claim "payment_attempt_id")
        (prop (prop result "receipt") "payment_attempt_id")
      ≡ true
  pub same_order :
      strict_eq (prop claim "owner_order_id") (prop (prop result "receipt") "order_id") ≡ true
  pub amount : IsSafeAmount (prop claim "amount_minor")
  pub currency : prop claim "currency" ≡ str "USD"
  pub location : IsText (fits 1 64) (prop claim "location_id")
  pub provider :
      (prop claim "provider_payment_id" ≡ null)
      ⊎ IsText (fits 1 192) (prop claim "provider_payment_id")

check_claim-eq-accept :
    (result claim : Value) (kind : ClaimKind)
    → prop result "disposition" ≡ str "claimed"
    → check_claim (prop result "claim") (prop result "receipt") kind ≡ accept claim
    → IsGranted result (prop result "claim") kind × (prop result "claim" ≡ claim)
unfolding check_claim
check_claim-eq-accept result claim kind granted h0 =
    let (_, h1) = require-eq-accept _ _ h0 in
    let (kind_is, h2) = require-eq-accept _ _ h1 in
    let (claim_id, h3) = on_text-eq-accept _ _ _ h2 in
    let (attempt_id, h4) = on_text-eq-accept _ _ _ h3 in
    let (order_id, h5) = on_text-eq-accept _ _ _ h4 in
    let (same_attempt, h6) = require-eq-accept _ _ h5 in
    let (same_order, h7) = require-eq-accept _ _ h6 in
    let (amount, h8) = require-eq-accept _ _ h7 in
    let (currency, h9) = require-eq-accept _ _ h8 in
    let (location, h10) = require-eq-accept _ _ h9 in
    let (provider, h11) = require-eq-accept _ _ h10 in
    (
      record {
        granted = granted;
        taken_from = refl;
        kind_is = strict_eq-str _ _ kind_is;
        claim_id = claim_id;
        attempt_id = attempt_id;
        order_id = order_id;
        same_attempt = same_attempt;
        same_order = same_order;
        amount = is_positive_safe-eq-true _ amount;
        currency = strict_eq-str _ _ currency;
        location = text_with-eq-true _ _ location;
        provider = null_or-eq-true _ _ provider;
      },
      cc h11,
    )

IsGranted-parse :
    (result claim : Value) (kind : ClaimKind)
    → IsGranted result claim kind
    → parse_payment_claim result kind ≡ accept claim
unfolding parse_payment_claim
IsGranted-parse result claim kind g = rw (← g.taken_from) (
    require-pass _ (strict_eq_of_str g.granted)
    ∙ require-pass _ (is_truthy_of_prop claim "claim_kind" g.kind_is)
    ∙ require-pass _ (strict_eq_of_str g.kind_is)
    ∙ on_text-pass _ _ _ g.claim_id
    ∙ on_text-pass _ _ _ g.attempt_id
    ∙ on_text-pass _ _ _ g.order_id
    ∙ require-pass _ g.same_attempt
    ∙ require-pass _ g.same_order
    ∙ require-pass _ (is_positive_safe_of_IsSafeAmount g.amount)
    ∙ require-pass _ (strict_eq_of_str g.currency)
    ∙ require-pass _ (text_with_of_IsText _ _ g.location)
    ∙ require-pass _ (null_or_of_IsText g.provider))

-- The parser returns a claim exactly when the result grants it: it is the claim of the result, it is of the kind that was asked for, its
-- identifiers are UUIDs that agree with the receipt, its amount is a safe positive number of US
-- cents, and its location and provider identifiers are within their lengths.
pub parse_payment_claim_iff :
    (result claim : Value) (kind : ClaimKind)
    → (parse_payment_claim result kind ≡ accept claim) ↔ IsGranted result claim kind
parse_payment_claim_iff result claim kind = (forth, IsGranted-parse result claim kind)
  where
    forth : parse_payment_claim result kind ≡ accept claim → IsGranted result claim kind
    forth h =
        unfold parse_payment_claim in
        let (granted, rest) = require-eq-accept _ _ h in
        let (g, same) = check_claim-eq-accept result claim kind (strict_eq-str _ _ granted) rest in
        subst (λ c. IsGranted result c kind) same g
