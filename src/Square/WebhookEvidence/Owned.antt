-- ===== src/Square/WebhookEvidence/Owned.antt =====
-- The evidence that an authenticated webhook leads to.
use mo_xx.Payment.Initiate.Settles.{Check-cases}
use mo_xx.Js.Effect.{pure}
use mo_xx.Square.Webhook.Trust.{authenticate_square_webhook-IsSigned, IsSigned, IsEvent}
use mo_xx.Js.Check.{throw, ok, Exc}
use mo_xx.Square.Webhook.{authenticate_square_webhook, payment, EventKind, WebhookPlatform}
use mo_xx.Square.WebhookEvidence.{
  rejected, is_refund, unavailable, ignored, authentication, authenticate_webhook_evidence,
  authenticate_event, agrees, AuthenticationResult, build_webhook_evidence, retryable_codes,
  is_blank,
}
use mo_xx.Js.Text.{is_uuid}
use mo_xx.Square.Types.{
  is_setting, Environment, World, matched, or_empty, PaymentStatus, Disposition,
}
use mo_xx.Square.Retrieval.{retrieve_square_payment, ProviderPayment}
use mo_xx.Square.Webhook.{WebhookEvent}
use mo_xx.Square.WebhookEvidence.{
  evidence_of_event, some_evidence, no_evidence, is_owned, authenticated, refund_evidence,
  payment_evidence, evidence_of_refund, authentication_of, WebhookEvidence,
}
use mo_xx.Js.Value.{Number, str, prop, field_of, Value}
use Prim.Native.String
use mo_xx.Js.Effect.Calls.{continue-eq-ok}
use mo_xx.Shared.{
  sym, ◌∙◌, ap, ◌&&◌, [], ◌∷◌, if◌then◌else◌, ℕ, List, has, ◌||◌, refl, ◌===◌, none, arith, inl,
  false, true, subst, inr, Bool-cases, Option-cases, some, String, Option, Bool, ◌≡◌,
}

-- Evidence of a webhook, about the event's payment and time, and about an order of ours.
pub record IsOwned (event : WebhookEvent) (evidence : Value) : Type 0 where
  pub order_id : String
  pub source : prop evidence "source" ≡ str "webhook"
  pub named : prop evidence "order_id" ≡ str order_id
  pub owned : is_uuid order_id ≡ true
  pub paid : prop evidence "provider_payment_id" ≡ str event.provider_payment_id
  pub dated : prop evidence "provider_updated_at" ≡ str event.provider_updated_at

is_owned-uuid : (o : Option String) → is_owned o ≡ true → is_uuid (or_empty o) ≡ true
is_owned-uuid none h = cc
is_owned-uuid (some s) h = h

evidence_of_event-IsOwned :
    (evidence_id : String) (event : WebhookEvent) (d : Disposition) (s : PaymentStatus)
    (o : Option String) (amount : Number × String) (currency location_id : String)
    → is_owned o ≡ true
    → IsOwned event
        (evidence_of_event evidence_id event d s (or_empty o) amount currency location_id)
unfolding field_of
evidence_of_event-IsOwned evidence_id event d s o amount currency location_id h = record {
  order_id = or_empty o;
  source = refl;
  named = refl;
  owned = is_owned-uuid o h;
  paid = refl;
  dated = refl;
}

-- What a result holds, if it holds evidence.
abbrev Holds : WebhookEvent → WebhookEvidence → Type 0
Holds event r = (evidence : Value) → r.evidence ≡ some evidence → IsOwned event evidence

some_evidence-Holds :
    (event : WebhookEvent) (e : Value) (code : Option String)
    → IsOwned event e
    → Holds event (some_evidence e code)
some_evidence-Holds event e code h evidence same =
    let known : e ≡ evidence = cc in subst (IsOwned event) known h

no_evidence-Holds :
    (event : WebhookEvent) (retryable : Bool) (code : String)
    → Holds event (no_evidence retryable code)
no_evidence-Holds event retryable code evidence same = cc

payment_evidence-Holds :
    (evidence_id : String) (event : WebhookEvent) → Holds event (payment_evidence evidence_id event)
unfolding payment_evidence
payment_evidence-Holds evidence_id event = elim (Bool-cases (is_owned event.order_id)) [
  | inl h ↦ rw h (
      some_evidence-Holds event _ none (
        evidence_of_event-IsOwned evidence_id event matched _ event.order_id event.amount
          event.currency event.location_id h))
  | inr h ↦ rw h (no_evidence-Holds event false "unowned_provider_event")
]

evidence_of_refund-Holds :
    (evidence_id : String) (event : WebhookEvent) (p : ProviderPayment)
    → Holds event (evidence_of_refund evidence_id event p)
unfolding evidence_of_refund
evidence_of_refund-Holds evidence_id event p = elim (Bool-cases (is_owned p.order_id)) [
  | inr h ↦ rw h (no_evidence-Holds event false "unowned_provider_event")
  | inl h ↦ elim (Option-cases p.amount_minor) [
    | inl a ↦ rw (h, a) (no_evidence-Holds event false "provider_identity_missing")
    | inr (amount, a) ↦
        elim (Bool-cases
          (is_blank p.provider_payment_id || is_blank p.currency || is_blank p.location_id)) [
            | inl b ↦ rw (h, a, b) (no_evidence-Holds event false "provider_identity_missing")
            | inr b ↦
                rw (h, a, b)
                  (some_evidence-Holds event _
                    (if agrees event p amount then none else some "provider_identity_mismatch")
                    (evidence_of_event-IsOwned evidence_id event _ _ p.order_id amount
                      (or_empty p.currency) (or_empty p.location_id) h))
          ]
  ]
]

refund_evidence-Holds :
    (evidence_id : String) (event : WebhookEvent) (p : ProviderPayment)
    → Holds event (refund_evidence evidence_id event p)
unfolding refund_evidence
refund_evidence-Holds evidence_id event p = elim (Option-cases p.error_code) [
  | inl c ↦ rw c (evidence_of_refund-Holds evidence_id event p)
  | inr (code, c) ↦ elim (Bool-cases (code === "")) [
    | inl b ↦ rw (c, b) (evidence_of_refund-Holds evidence_id event p)
    | inr b ↦ rw (c, b) (no_evidence-Holds event (has retryable_codes code) code)
  ]
]

authentication_of-authenticated :
    (r : WebhookEvidence)
    → (authentication_of r).disposition ≡ authenticated
    → (e : Value) × (r.evidence ≡ some e) × ((authentication_of r).evidence ≡ some e)
unfolding authentication_of
authentication_of-authenticated r h = elim (Option-cases r.evidence) [
  | inr (e, k) ↦ (e, k, rw k refl)
  | inl k ↦ ground (arith, k)
]

module _ (w : World) (p : WebhookPlatform) (encode_uri_component : String → Exc String) where
  build_webhook_evidence-Holds :
      (event : WebhookEvent) (access_token : String) (r : WebhookEvidence)
      → (build_webhook_evidence w encode_uri_component event access_token).outcome ≡ ok r
      → Holds event r
  unfolding build_webhook_evidence
  build_webhook_evidence-Holds event access_token r h = go event.kind refl
    where
      id : String
      id = String.◌++◌ "square:webhook:sha256:" (w.digest (str event.event_id ∷ []))

      go : (k : EventKind) → event.kind ≡ k → Holds event r
      go payment same =
          let made : ok (payment_evidence id event) ≡ ok r = rw same at h in
          let known : payment_evidence id event ≡ r = cc made in
          subst (Holds event) known (payment_evidence-Holds id event)
      go EventKind.refund same =
          let run =
            retrieve_square_payment w encode_uri_component event.provider_payment_id access_token in
          let (q, _, made, _) =
            continue-eq-ok run.outcome run.calls (λ q. pure (refund_evidence id event q))
              (rw same at h) in
          let known : refund_evidence id event q ≡ r = cc made in
          subst (Holds event) known (refund_evidence-Holds id event q)

  -- An event that is authenticated.
  pub record IsTrusted (env : Environment) (raw_body : List ℕ) (signature : String)
      (result : AuthenticationResult) : Type 0 where
    pub envelope : Value
    pub event : WebhookEvent
    pub evidence : Value
    pub parsed : p.parse_json raw_body ≡ ok envelope
    pub read : IsEvent w.date_finite envelope event
    pub signed :
        IsSigned p raw_body signature (or_empty env.signature_key) (or_empty env.notification_url)
    pub located : is_setting env.location_id event.location_id ≡ true
    pub known : result.evidence ≡ some evidence
    pub owned : IsOwned event evidence

  authenticate_event-authenticated :
      (env : Environment) (event : WebhookEvent) (result : AuthenticationResult)
      → (authenticate_event w p encode_uri_component env event).outcome ≡ ok result
      → result.disposition ≡ authenticated
      → (is_setting env.location_id event.location_id ≡ true)
        × ((e : Value) × (result.evidence ≡ some e) × IsOwned event e)
  unfolding authenticate_event
  authenticate_event-authenticated env event result h k =
      elim (Bool-cases (is_setting env.location_id event.location_id)) [
        | inr elsewhere ↦
            (let off : ok (authentication ignored none (some "unowned_provider_event"))
                  ≡ ok result =
                rw elsewhere at h in
              let d : ignored ≡ authenticated = cc in cc)
        | inl here ↦ elim (Bool-cases (is_refund event.kind && or_empty env.access_token === "")) [
          | inl bare ↦
              (let off : ok
                      (authentication unavailable none (some "provider_configuration_missing"))
                    ≡ ok result =
                  rw (here, bare) at h in
                let d : unavailable ≡ authenticated = cc in cc)
          | inr full ↦
              let run =
                build_webhook_evidence w encode_uri_component event (or_empty env.access_token) in
              let (r, built, made, _) =
                continue-eq-ok run.outcome run.calls (λ r. pure (authentication_of r))
                  (rw (here, full) at h) in
              let same : authentication_of r ≡ result = cc made in
              let (e, held, given) =
                authentication_of-authenticated r (ap (λ a. a.disposition) same ∙ k) in
              (
                here,
                (
                  e,
                  ap (λ a. a.evidence) (sym same) ∙ given,
                  build_webhook_evidence-Holds event (or_empty env.access_token) r built e held,
                ),
              )
        ]
      ]

  -- A webhook is authenticated only if the configured key signs the configured notification URL
  -- followed by the body, the body parses to an event, whose fields are the body's, and this event
  -- is of the configured location; the evidence has the source webhook, the event's payment and
  -- time, and names an order by a UUID.
  pub authenticate_webhook_evidence-IsTrusted :
      (env : Environment) (raw_body : List ℕ) (signature : String) (result : AuthenticationResult)
      → (authenticate_webhook_evidence w p encode_uri_component env raw_body signature).outcome
        ≡ ok result
      → result.disposition ≡ authenticated
      → IsTrusted env raw_body signature result
  unfolding authenticate_webhook_evidence
  authenticate_webhook_evidence-IsTrusted env raw_body signature result h k =
      let check =
        authenticate_square_webhook w.date_finite p raw_body signature (or_empty env.signature_key)
          (or_empty env.notification_url) in
      elim (Bool-cases (
        or_empty env.signature_key === ""
        || or_empty env.notification_url === ""
        || or_empty env.location_id === "")) [
          | inl bare ↦
              (let off : ok (authentication unavailable none (some "webhook_configuration_missing"))
                    ≡ ok result =
                  rw bare at h in
                let d : unavailable ≡ authenticated = cc in cc)
          | inr full ↦ elim (Check-cases check) [
            | inl (event, c) ↦
                let (signed, (envelope, parsed, read)) =
                  authenticate_square_webhook-IsSigned w.date_finite p raw_body signature
                    (or_empty env.signature_key) (or_empty env.notification_url) event c in
                let (here, (e, known, owned)) =
                  authenticate_event-authenticated env event result (rw (full, c) at h) k in
                record {
                  envelope = envelope;
                  event = event;
                  parsed = parsed;
                  read = read;
                  evidence = e;
                  signed = signed;
                  located = here;
                  known = known;
                  owned = owned;
                }
            | inr (inl c) ↦
                (let off : ok (authentication rejected none (some "invalid_webhook")) ≡ ok result =
                    rw (full, c) at h in
                  let d : rejected ≡ authenticated = cc in cc)
            | inr (inr (e, c)) ↦ (let off : throw e ≡ ok result = rw (full, c) at h in cc)
          ]
        ]
