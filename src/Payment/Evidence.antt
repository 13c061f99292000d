-- ===== src/Payment/Evidence.antt =====
-- src/parse_payment_evidence.ts and src/indeterminate_payment_evidence.ts: what a payment is known
-- by. `date_finite s` stands for `Number.isFinite(Date.parse(s))`.
pub mod Fallback
pub mod Same
use Prim.Native.String
use mo_xx.Shared.{String, Bool, List, [], ◌∷◌, has}
use mo_xx.Js.Text.{fits, is_uuid, is_currency_code}
use mo_xx.Js.Value.{Value, null, str, obj, end, field, field_of, prop, only_keys, is_positive_safe}
use mo_xx.Js.Check.{
  Exc, ok, bind, Check, accept, reject, to_string, ◌>>◌, require, on_text, text_with, null_or,
}

abbrev pub statuses : List String
statuses =
    "pending" ∷ "authorized" ∷ "paid" ∷ "declined" ∷ "canceled" ∷ "refund_pending" ∷ "refunded"
    ∷ "indeterminate" ∷ []

abbrev pub sources : List String
sources = "delivery" ∷ "reconciliation" ∷ "webhook" ∷ []

abbrev pub dispositions : List String
dispositions = "matched" ∷ "mismatch" ∷ "missing" ∷ "indeterminate" ∷ []

abbrev pub evidence_keys : List String
evidence_keys =
    "evidence_id" ∷ "source" ∷ "disposition" ∷ "payment_status" ∷ "provider_payment_id"
    ∷ "provider_updated_at" ∷ "order_id" ∷ "amount_minor" ∷ "currency" ∷ "location_id" ∷ []

module _ (date_finite : String → Bool) where
  unfoldable pub parse_payment_evidence : Value → Check Value
  parse_payment_evidence (obj fs) = do
    require (only_keys evidence_keys fs)
    require (text_with (fits 1 192) (field_of fs "evidence_id"))
    on_text (has sources) (field_of fs "source")
    on_text (has dispositions) (field_of fs "disposition")
    on_text (has statuses) (field_of fs "payment_status")
    require (null_or (text_with (fits 1 192)) (field_of fs "provider_payment_id"))
    require (null_or (text_with date_finite) (field_of fs "provider_updated_at"))
    require (text_with is_uuid (field_of fs "order_id"))
    require (is_positive_safe (field_of fs "amount_minor"))
    require (text_with is_currency_code (field_of fs "currency"))
    require (text_with (fits 1 64) (field_of fs "location_id"))
    accept (obj fs)
  parse_payment_evidence _ = reject

-- The object that carries evidence, its properties in the order of the source.
abbrev pub evidence_object :
    String → String → Value → Value → Value → Value → Value → Value → Value → Value → Value
evidence_object evidence_id source disposition status provider_id updated_at order_id amount
      currency location_id =
    obj (
      field "evidence_id" (str evidence_id) (
        field "source" (str source) (
          field "disposition" disposition (
            field "payment_status" status (
              field "provider_payment_id" provider_id (
                field "provider_updated_at" updated_at (
                  field "order_id" order_id (
                    field "amount_minor" amount
                      (field "currency" currency (field "location_id" location_id end))))))))))

-- `momi:${source}:indeterminate:${claim.claim_id}`
abbrev pub indeterminate_id : String → String → String
indeterminate_id source claim_id =
    String.◌++◌ "momi:" (String.◌++◌ source (String.◌++◌ ":indeterminate:" claim_id))

-- the object literal, at the text of the claim's identifier
abbrev pub indeterminate_object : String → String → Value → Value
indeterminate_object source claim_id claim =
    evidence_object (indeterminate_id source claim_id) source (str "indeterminate")
      (str "indeterminate") (prop claim "provider_payment_id") null (prop claim "owner_order_id")
      (prop claim "amount_minor") (prop claim "currency") (prop claim "location_id")

unfoldable pub indeterminate_payment_evidence : Value → String → Exc Value
indeterminate_payment_evidence claim source =
    bind (to_string (prop claim "claim_id"))
      λ claim_id. ok (indeterminate_object source claim_id claim)
