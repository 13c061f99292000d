-- ===== src/Preorder/SquareWebhook/Order.antt =====
-- The order in which a webhook is authenticated, captured, resolved and projected.
use mo_xx.Js.Check.Inversion.{strict_eq-str}
use mo_xx.Payment.Initiate.Settles.{Check-cases}
use mo_xx.Js.Text.{fits}
use mathlib.Core.Option.{none}
use mo_xx.Payment.Evidence.{parse_payment_evidence}
use mo_xx.Js.Check.{text_with, throw, accept, Exc, ok}
use mo_xx.Square.Types.{or_empty}
use mo_xx.Js.Value.{strict_eq, obj, str, prop, Value}
use mo_xx.Square.WebhookEvidence.{Authentication, rejected, AuthenticationResult}
use mo_xx.Preorder.SquareWebhook.{
  with_payload, authenticate_body, read_raw_body, process_webhook, by_disposition, failed,
  with_evidence, after_authentication, requires_evidence, process_authenticated, parse_raw_payload,
  Parsed, context_order, valid, context_location, read_webhook_identity, parse_result,
  capture_evidence, is_retryable, project_resolved, is_ignored, capture, resolve, after_capture,
  authenticate, apply_evidence, WebhookCall, Delivery, WebhookDependencies,
}
use mo_xx.Square.WebhookEvidence.{unavailable}
use mo_xx.Shared.{
  subst, arith, ℕ, sym, ap, ◌∙◌, Option-cases, refl, inr, ◌===◌, inl, ◌∷◌, Bool-cases, Option, some,
  List, Bool, String, ◌≡◌,
}
use mo_xx.Preorder.SquareWebhook.Trace.{
  projected, resolved, captured, IsCapture, silent, authenticated_only, IsWebhookEvidence,
  IsAuthentic, IsTrace,
}

module _ (date_finite : String → Bool) (deps : WebhookDependencies) (d : Delivery) where
  module _ (r : AuthenticationResult) (payload location order : Value) (identity : String)
      (authentic : IsAuthentic date_finite deps d r)
      (read : IsCapture date_finite deps d payload identity location) where
    abbrev first : List WebhookCall → List WebhookCall
    first cs =
        authenticate d.body (or_empty d.signature)
        ∷ capture payload identity location order r.disposition
        ∷ cs

    project_resolved-IsTrace :
        (evidence : Value) (attempt : Exc (Option String))
        → deps.capture payload identity location ≡ ok tt
        → IsWebhookEvidence date_finite deps d r evidence
        → deps.resolve evidence ≡ attempt
        → IsTrace date_finite deps d
            (first (resolve evidence ∷ (project_resolved deps evidence attempt).calls))
    project_resolved-IsTrace evidence (throw e) done known same =
        resolved r payload location order evidence identity authentic read done known
    project_resolved-IsTrace evidence (ok none) done known same =
        resolved r payload location order evidence identity authentic read done known
    project_resolved-IsTrace evidence (ok (some attempt)) done known same =
        elim (Bool-cases (attempt === "")) [
          | inl b ↦
              rw b (resolved r payload location order evidence identity authentic read done known)
          | inr b ↦ rw b (
              projected r payload location order evidence identity attempt authentic read done known
                same)
        ]

    apply_evidence-IsTrace :
        (evidence : Option Value)
        → deps.capture payload identity location ≡ ok tt
        → ((e : Value) → evidence ≡ some e → IsWebhookEvidence date_finite deps d r e)
        → IsTrace date_finite deps d (first (apply_evidence deps r.disposition evidence).calls)
    unfolding apply_evidence
    apply_evidence-IsTrace none done known = elim (Bool-cases (is_ignored r.disposition)) [
      | inl b ↦ rw b (captured r payload location order identity authentic read)
      | inr b ↦ rw b (captured r payload location order identity authentic read)
    ]
    apply_evidence-IsTrace (some e) done known = elim (Bool-cases (is_ignored r.disposition)) [
      | inl b ↦ rw b (captured r payload location order identity authentic read)
      | inr b ↦ elim (Bool-cases (is_retryable r.disposition)) [
        | inl c ↦ rw (b, c) (captured r payload location order identity authentic read)
        | inr c ↦ rw (b, c) (project_resolved-IsTrace e (deps.resolve e) done (known e refl) refl)
      ]
    ]

    after_capture-IsTrace :
        (evidence : Option Value) (outcome : Exc (Unit {0}))
        → deps.capture payload identity location ≡ outcome
        → ((e : Value) → evidence ≡ some e → IsWebhookEvidence date_finite deps d r e)
        → IsTrace date_finite deps d
            (first (after_capture deps r.disposition evidence outcome).calls)
    after_capture-IsTrace evidence (throw e) done known =
        captured r payload location order identity authentic read
    after_capture-IsTrace evidence (ok tt) done known = apply_evidence-IsTrace evidence done known

  capture_evidence-IsTrace :
      (r : AuthenticationResult) (payload : Value) (evidence : Option Value)
      → IsAuthentic date_finite deps d r
      → d.payload ≡ ok payload
      → ((e : Value) → evidence ≡ some e → IsWebhookEvidence date_finite deps d r e)
      → IsTrace date_finite deps d (
          authenticate d.body (or_empty d.signature)
          ∷ (capture_evidence deps d payload r.disposition evidence).calls)
  unfolding capture_evidence
  capture_evidence-IsTrace r payload evidence authentic read known =
      let location = context_location evidence deps.location_id in
      let identity = read_webhook_identity payload d.digest in
      elim (Bool-cases (text_with (fits 1 64) location)) [
        | inr b ↦ rw b authenticated_only
        | inl b ↦ rw b (
            after_capture-IsTrace r payload location (context_order evidence) identity authentic
              (read, refl, b) evidence (deps.capture payload identity location) refl known)
      ]

  parse_result-valid :
      (r : AuthenticationResult) (e : Value)
      → parse_result date_finite r ≡ valid (some e)
      → IsWebhookEvidence date_finite deps d r e
  unfolding parse_result
  parse_result-valid r e h = elim (Option-cases r.evidence) [
    | inl k ↦ elim (Bool-cases (requires_evidence r.disposition)) [
      | inl b ↦ (let off : Parsed.invalid ≡ valid (some e) = rw (k, b) at h in cc)
      | inr b ↦ (let off : valid none ≡ valid (some e) = rw (k, b) at h in cc)
    ]
    | inr (v, k) ↦ elim (Check-cases (parse_payment_evidence date_finite v)) [
      | inl (parsed, p) ↦ elim (Bool-cases (strict_eq (prop parsed "source") (str "webhook"))) [
        | inl b ↦
            let known : valid (some parsed) ≡ valid (some e) = rw (k, p, b) at h in
            let same : parsed ≡ e = cc known in
            (v, k, p ∙ ap accept same, ap (λ e. prop e "source") (sym same) ∙ strict_eq-str _ _ b)
        | inr b ↦ (let off : Parsed.invalid ≡ valid (some e) = rw (k, p, b) at h in cc)
      ]
      | inr (inl p) ↦ (let off : Parsed.invalid ≡ valid (some e) = rw (k, p) at h in cc)
      | inr (inr (m, p)) ↦ (let off : failed m ≡ valid (some e) = rw (k, p) at h in cc)
    ]
  ]

  with_evidence-IsTrace :
      (r : AuthenticationResult) (payload : Value) (parsed : Parsed)
      → IsAuthentic date_finite deps d r
      → d.payload ≡ ok payload
      → parse_result date_finite r ≡ parsed
      → IsTrace date_finite deps d (
          authenticate d.body (or_empty d.signature)
          ∷ (with_evidence date_finite deps d payload r.disposition parsed).calls)
  with_evidence-IsTrace r payload Parsed.invalid authentic read same = authenticated_only
  with_evidence-IsTrace r payload (failed e) authentic read same = authenticated_only
  with_evidence-IsTrace r payload (valid evidence) authentic read same =
      capture_evidence-IsTrace r payload evidence authentic read
        λ e k. parse_result-valid r e (same ∙ ap valid k)

  parse_raw_payload-some :
      (x : Exc Value) (payload : Value) → parse_raw_payload x ≡ some payload → x ≡ ok payload
  parse_raw_payload-some (ok (obj fs)) payload h = cc
  parse_raw_payload-some (ok v) payload h = cc
  parse_raw_payload-some (throw e) payload h = cc

  with_payload-IsTrace :
      (r : AuthenticationResult) (payload : Option Value)
      → IsAuthentic date_finite deps d r
      → parse_raw_payload d.payload ≡ payload
      → IsTrace date_finite deps d (
          authenticate d.body (or_empty d.signature)
          ∷ (with_payload date_finite deps d r payload).calls)
  with_payload-IsTrace r none authentic same = authenticated_only
  with_payload-IsTrace r (some payload) authentic same =
      with_evidence-IsTrace r payload (parse_result date_finite r) authentic
        (parse_raw_payload-some d.payload payload same) refl

  process_authenticated-IsTrace :
      (r : AuthenticationResult)
      → IsAuthentic date_finite deps d r
      → IsTrace date_finite deps d (
          authenticate d.body (or_empty d.signature)
          ∷ (process_authenticated date_finite deps d r).calls)
  unfolding process_authenticated
  process_authenticated-IsTrace r authentic =
      with_payload-IsTrace r (parse_raw_payload d.payload) authentic refl

  by_disposition-IsTrace :
      (r : AuthenticationResult) (disposition : Authentication)
      → deps.authenticate d.body (or_empty d.signature) ≡ ok r
      → r.disposition ≡ disposition
      → IsTrace date_finite deps d (
          authenticate d.body (or_empty d.signature)
          ∷ (by_disposition date_finite deps d r disposition).calls)
  by_disposition-IsTrace r rejected answered same = authenticated_only
  by_disposition-IsTrace r unavailable answered same = authenticated_only
  by_disposition-IsTrace r x answered same =
      process_authenticated-IsTrace r (answered, λ h. cc, λ h. cc)

  after_authentication-IsTrace :
      (result : Exc AuthenticationResult)
      → deps.authenticate d.body (or_empty d.signature) ≡ result
      → IsTrace date_finite deps d (
          authenticate d.body (or_empty d.signature)
          ∷ (after_authentication date_finite deps d result).calls)
  after_authentication-IsTrace (throw e) answered = authenticated_only
  after_authentication-IsTrace (ok r) answered =
      by_disposition-IsTrace r r.disposition answered refl

  authenticate_body-IsTrace :
      (body : Exc (List ℕ))
      → read_raw_body d ≡ body
      → IsTrace date_finite deps d
          (authenticate_body date_finite deps d (or_empty d.signature) body).calls
  unfolding read_raw_body
  authenticate_body-IsTrace (throw e) read = silent
  authenticate_body-IsTrace (ok body) read =
      let same : d.body ≡ body = ground arith in
      subst
        (λ b.
          IsTrace date_finite deps d
            (authenticate_body date_finite deps d (or_empty d.signature) (ok b)).calls)
        same (after_authentication-IsTrace (deps.authenticate d.body (or_empty d.signature)) refl)

  -- A delivery of Square's is handled in this order: the body is authenticated as it arrived; only
  -- what is neither rejected nor unavailable is captured, under its identity and for a location of
  -- 1 to 64 units; only once the capture has succeeded is the payment attempt resolved, from
  -- evidence that the parser lets through and that is a webhook's; and only an attempt that was
  -- resolved is projected, with that evidence.
  pub process_webhook-IsTrace :
      IsTrace date_finite deps d (process_webhook date_finite deps d).calls
  unfolding process_webhook
  process_webhook-IsTrace = elim (Bool-cases (d.method === "POST")) [
    | inr b ↦ rw b silent
    | inl b ↦ elim (Bool-cases (fits 1 512 (or_empty d.signature))) [
      | inr c ↦ rw (b, c) silent
      | inl c ↦ rw (b, c) (authenticate_body-IsTrace (read_raw_body d) refl)
    ]
  ]
