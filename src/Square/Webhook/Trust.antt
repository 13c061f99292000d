-- ===== src/Square/Webhook/Trust.antt =====
-- What is known of a webhook event that was authenticated.
use mo_xx.Square.Retrieval.{text_of}
use mo_xx.Js.Text.{utf16_length, fits, is_currency_code}
use mo_xx.Js.Check.{get, reject, text_with, raise, accept, to_string, ok}
use mo_xx.Js.Check.Inversion.{
  is_positive_safe-eq-true, text_with-eq-true, Exc-cases, require-eq-accept, IsText, IsSafeAmount,
}
use mo_xx.Square.Webhook.{
  starts_with, payment_id_of, payment, EventKind, read_envelope, authenticate_square_webhook,
  event_of, kind_key, kind_of, event_types, check_record, check_envelope, WebhookEvent,
  verify_square_webhook_signature, WebhookPlatform,
}
use mo_xx.Js.Value.{as_text, str, prop, as_number, number, Value}
use mo_xx.Shared.{
  none, ◌≤◌, leb→le, ap, ◌∙◌, subst, arith, inr, inl, ◌||◌, ◌++◌, has, Bool-cases, true, refl,
  false, ◌===◌, ℕ, List, Bool, String, ◌≡◌,
}

-- The signature signs the notification URL and the body, under the key that is configured.
pub record IsSigned (p : WebhookPlatform) (raw_body : List ℕ)
    (signature_header signature_key notification_url : String) : Type 0 where
  pub signature : List ℕ
  pub key : List ℕ
  pub has_header : (signature_header === "") ≡ false
  pub has_key : (signature_key === "") ≡ false
  pub has_url : (notification_url === "") ≡ false
  pub decoded : p.decode_base64 signature_header ≡ ok signature
  pub imported : p.import_key (p.encode signature_key) ≡ ok key
  pub verified : p.verify key signature (p.encode notification_url ++ raw_body) ≡ ok true

verify_square_webhook_signature-IsSigned :
    (p : WebhookPlatform) (raw_body : List ℕ) (header key url : String)
    → verify_square_webhook_signature p raw_body header key url ≡ ok true
    → IsSigned p raw_body header key url
unfolding verify_square_webhook_signature
verify_square_webhook_signature-IsSigned p raw_body header key url h =
    elim (Bool-cases (header === "" || key === "" || url === "")) [
      | inl none_of ↦ (let off : ok false ≡ ok true = rw none_of at h in cc)
      | inr full ↦ elim (Exc-cases (p.decode_base64 header)) [
        | inr (e, d) ↦ (let off : ok false ≡ ok true = rw (full, d) at h in cc)
        | inl (signature, d) ↦ elim (Exc-cases (p.import_key (p.encode key))) [
          | inr (e, i) ↦ (let off : ok false ≡ ok true = rw (full, d, i) at h in cc)
          | inl (imported, i) ↦ record {
            signature = signature;
            key = imported;
            has_header = ground arith;
            has_key = ground arith;
            has_url = ground arith;
            decoded = d;
            imported = i;
            verified = rw (full, d, i) at h;
          }
        ]
      ]
    ]

-- The kind of an event by its type: where its record stands, and which payment and order it names.
pub data IsKind (event_type : String) (subject record_value : Value) (event : WebhookEvent)
    : Type 0 where
  of_payment :
      event.kind ≡ payment
      → starts_with event_type "payment." ≡ true
      → record_value ≡ prop subject "payment"
      → prop record_value "id" ≡ str event.provider_payment_id
      → event.order_id ≡ text_of (prop record_value "reference_id")
      → IsKind event_type subject record_value event
  of_refund :
      event.kind ≡ EventKind.refund
      → starts_with event_type "payment." ≡ false
      → record_value ≡ prop subject "refund"
      → prop record_value "payment_id" ≡ str event.provider_payment_id
      → event.order_id ≡ none
      → IsKind event_type subject record_value event

-- An event whose fields are what the parsed body holds.
pub record IsEvent (date_finite : String → Bool) (envelope : Value) (event : WebhookEvent)
    : Type 0 where
  pub record_value : Value
  pub type_text : String
  pub event_type : event.event_type ≡ prop envelope "type"
  pub typed : to_string (prop envelope "type") ≡ ok type_text
  pub type_known : has event_types type_text ≡ true
  pub kind : IsKind type_text (prop (prop envelope "data") "object") record_value event
  pub event_id :
      (prop envelope "event_id" ≡ str event.event_id) × (fits 1 192 event.event_id ≡ true)
  pub payment_id : fits 1 192 event.provider_payment_id ≡ true
  pub updated_at : prop record_value "updated_at" ≡ str event.provider_updated_at
  pub dated : date_finite event.provider_updated_at ≡ true
  pub status :
      (prop record_value "status" ≡ str event.provider_status)
      × (1 ≤ utf16_length event.provider_status)
  pub amount :
      IsSafeAmount (prop (prop record_value "amount_money") "amount")
      × (prop (prop record_value "amount_money") "amount" ≡ number event.amount.0 event.amount.1)
  pub currency : prop (prop record_value "amount_money") "currency" ≡ str event.currency
  pub coded : is_currency_code event.currency ≡ true
  pub location :
      (prop record_value "location_id" ≡ str event.location_id)
      × (fits 1 64 event.location_id ≡ true)

as_text-IsText :
    (q : String → Bool) (v : Value) → IsText q v → (v ≡ str (as_text v)) × (q (as_text v) ≡ true)
as_text-IsText q v (s, e, h) = rw e (refl, h)

as_number-IsSafeAmount : (v : Value) → IsSafeAmount v → v ≡ number (as_number v).0 (as_number v).1
as_number-IsSafeAmount v (n, t, e, _, _) = rw e refl

kind_of-payment : (t : String) → payment ≡ kind_of t → starts_with t "payment." ≡ true
kind_of-payment t k = elim (Bool-cases (starts_with t "payment.")) [
  | inl e ↦ e
  | inr e ↦ (let off : payment ≡ EventKind.refund = rw e at k in cc)
]

kind_of-refund : (t : String) → EventKind.refund ≡ kind_of t → starts_with t "payment." ≡ false
kind_of-refund t k = elim (Bool-cases (starts_with t "payment.")) [
  | inl e ↦ (let off : EventKind.refund ≡ payment = rw e at k in cc)
  | inr e ↦ e
]

event_of-IsKind :
    (event_id event_type : String) (raw subject : Value) (kind : EventKind)
    → kind ≡ kind_of event_type
    → let record_value = prop subject (kind_key kind) in
      IsText (fits 1 192) (payment_id_of kind record_value)
      → IsKind event_type subject record_value (event_of event_id raw kind record_value)
event_of-IsKind event_id event_type raw subject payment k t =
    of_payment refl (kind_of-payment event_type k) refl (as_text-IsText _ _ t).0 refl
event_of-IsKind event_id event_type raw subject EventKind.refund k t =
    of_refund refl (kind_of-refund event_type k) refl (as_text-IsText _ _ t).0 refl

module _ (date_finite : String → Bool) where
  check_envelope-IsEvent :
      (envelope : Value) (event_type : String) (event : WebhookEvent)
      → to_string (prop envelope "type") ≡ ok event_type
      → check_envelope date_finite envelope event_type ≡ accept event
      → IsEvent date_finite envelope event
  unfolding check_envelope check_record
  check_envelope-IsEvent envelope event_type event typed h =
      let kind = kind_of event_type in
      let record_value = prop (prop (prop envelope "data") "object") (kind_key kind) in
      let (named, h) = require-eq-accept _ _ h in
      let (known, h) = require-eq-accept _ _ h in
      let (_, h) = require-eq-accept _ _ h in
      let (_, h) = require-eq-accept _ _ h in
      let (_, h) = require-eq-accept _ _ h in
      let (_, h) = require-eq-accept _ _ h in
      let (p, h) = require-eq-accept _ _ h in
      let (u, h) = require-eq-accept _ _ h in
      let (s, h) = require-eq-accept _ _ h in
      let (a, h) = require-eq-accept _ _ h in
      let (c, h) = require-eq-accept _ _ h in
      let (l, h) = require-eq-accept _ _ h in
      let same : event_of (as_text (prop envelope "event_id")) (prop envelope "type") kind
            record_value
          ≡ event =
        cc in
      let (u1, u2) = as_text-IsText _ _ (text_with-eq-true _ _ u) in
      let (c1, c2) = as_text-IsText _ _ (text_with-eq-true _ _ c) in
      let (s1, s2) = as_text-IsText _ _ (text_with-eq-true _ _ s) in
      let paid = text_with-eq-true _ _ p in
      let safe = is_positive_safe-eq-true _ a in
      subst (IsEvent date_finite envelope) same (record {
        record_value = record_value;
        type_text = event_type;
        event_type = refl;
        typed = typed;
        type_known = known;
        kind =
            event_of-IsKind (as_text (prop envelope "event_id")) event_type (prop envelope "type")
              (prop (prop envelope "data") "object") kind refl paid;
        event_id = as_text-IsText _ _ (text_with-eq-true _ _ named);
        payment_id = (as_text-IsText _ _ paid).1;
        updated_at = u1;
        dated = u2;
        status = (s1, leb→le 1 _ s2);
        amount = (safe, as_number-IsSafeAmount _ safe);
        currency = c1;
        coded = c2;
        location = as_text-IsText _ _ (text_with-eq-true _ _ l);
      })

  read_envelope-IsEvent :
      (envelope : Value) (event : WebhookEvent)
      → read_envelope date_finite envelope ≡ accept event
      → IsEvent date_finite envelope event
  unfolding read_envelope
  read_envelope-IsEvent envelope event h =
      elim (Bool-cases (text_with (fits 1 192) (prop envelope "event_id"))) [
        | inr bad ↦ elim (Exc-cases (get envelope "event_id")) [
          | inl (v, e) ↦ (let off : reject ≡ accept event = rw (bad, e) at h in cc)
          | inr (m, e) ↦ (let off : raise m ≡ accept event = rw (bad, e) at h in cc)
        ]
        | inl good ↦ elim (Exc-cases (to_string (prop envelope "type"))) [
          | inl (t, e) ↦ check_envelope-IsEvent envelope t event e (rw (good, e) at h)
          | inr (m, e) ↦ (let off : raise m ≡ accept event = rw (good, e) at h in cc)
        ]
      ]

  -- An event is accepted only if the key signs the notification URL followed by the body as it
  -- arrived; its type is the parsed body's, whose text is one of the four known ones, and it is of
  -- a payment or of a refund by that text; its payment, order, status, time, amount, currency and
  -- location are those of the record under that kind, a refund's payment being the one that the
  -- refund names, and they are within their bounds.
  pub authenticate_square_webhook-IsSigned :
      (p : WebhookPlatform) (raw_body : List ℕ) (header key url : String) (event : WebhookEvent)
      → authenticate_square_webhook date_finite p raw_body header key url ≡ accept event
      → IsSigned p raw_body header key url
        × ((envelope : Value) × (p.parse_json raw_body ≡ ok envelope)
            × IsEvent date_finite envelope event)
  unfolding authenticate_square_webhook
  authenticate_square_webhook-IsSigned p raw_body header key url event h =
      elim (Exc-cases (verify_square_webhook_signature p raw_body header key url)) [
        | inr (e, v) ↦ (let off : raise e ≡ accept event = rw v at h in cc)
        | inl (verified, v) ↦ elim (Bool-cases verified) [
          | inr bad ↦ (let off : reject ≡ accept event = rw (v, bad) at h in cc)
          | inl good ↦ elim (Exc-cases (p.parse_json raw_body)) [
            | inr (e, j) ↦ (let off : reject ≡ accept event = rw (v, good, j) at h in cc)
            | inl (envelope, j) ↦ (
              verify_square_webhook_signature-IsSigned p raw_body header key url (v ∙ ap ok good),
              (envelope, j, read_envelope-IsEvent envelope event (rw (v, good, j) at h)),
            )
          ]
        ]
      ]
