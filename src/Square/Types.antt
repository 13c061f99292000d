-- ===== src/Square/Types.antt =====
-- The words and records that the Square services share (src/types.ts of both), and what they are
-- given from outside: the environment, the digest and the network.
use mathlib.Core.Option.{none}
use mo_xx.Shared.{◌===◌, ℕ, some, if◌then◌else◌, false, List, String, Option, Bool}
use mo_xx.Js.Check.{Exc, ok, bind, to_string}
use mo_xx.Js.Value.{str, undefined, Value, null, is_truthy}

pub data Outcome : Type 0 where
  accepted rejected pending indeterminate : Outcome

pub data PaymentStatus : Type 0 where
  pending authorized paid declined canceled refund_pending refunded indeterminate : PaymentStatus

abbrev pub status_text : PaymentStatus → String
status_text PaymentStatus.pending = "pending"
status_text PaymentStatus.authorized = "authorized"
status_text PaymentStatus.paid = "paid"
status_text PaymentStatus.declined = "declined"
status_text PaymentStatus.canceled = "canceled"
status_text PaymentStatus.refund_pending = "refund_pending"
status_text PaymentStatus.refunded = "refunded"
status_text PaymentStatus.indeterminate = "indeterminate"

pub data Recovery : Type 0 where
  no_recovery retrieve operator_review : Recovery

pub data Disposition : Type 0 where
  matched mismatch missing indeterminate : Disposition

abbrev pub disposition_text : Disposition → String
disposition_text matched = "matched"
disposition_text mismatch = "mismatch"
disposition_text missing = "missing"
disposition_text Disposition.indeterminate = "indeterminate"

-- The provider's identifier and time are as its answer holds them, or null.
pub record PaymentReceipt : Type 0 where
  pub outcome : Outcome
  pub payment_status : PaymentStatus
  pub provider_payment_id : Value
  pub provider_updated_at : Value
  pub provider_request_id : Option String
  pub recovery : Recovery

pub record PaymentCommand : Type 0 where
  pub payment_attempt_id : String
  pub owner_order_id : String
  pub amount_minor : Value
  pub currency : String
  pub source_token : String

pub record RefundCommand : Type 0 where
  pub refund_attempt_id : String
  pub provider_payment_id : String
  pub owner_order_id : String
  pub amount_minor : Value
  pub currency : String
  pub location_id : String

pub record RefundReceipt : Type 0 where
  pub outcome : Outcome
  pub payment_status : PaymentStatus
  pub provider_payment_id : String
  pub provider_refund_id : Value
  pub provider_updated_at : Value
  pub provider_request_id : Option String
  pub recovery : Recovery

-- A request to Square, and an answer: `json` is what `response.json()` returns or throws.
pub record SquareRequest : Type 0 where
  pub url : String
  pub authorization : String
  pub square_version : String
  pub body : Value

pub record SquareResponse : Type 0 where
  pub is_ok : Bool
  pub status : ℕ
  pub request_id : Option String
  pub json : Exc Value

-- The settings that a service reads; an absent one is `none`.
pub record Environment : Type 0 where
  pub access_token : Option String
  pub location_id : Option String
  pub api_version : Option String
  pub signature_key : Option String
  pub notification_url : Option String

-- The outside world, by what it returns or throws. `date_finite s` stands for
-- `Number.isFinite(Date.parse(s))`, and `digest` for the SHA-256 of the values' JSON in hex.
pub record World : Type 0 where
  pub date_finite : String → Bool
  pub digest : List Value → String
  pub fetch : SquareRequest → Exc SquareResponse

abbrev pub square_sandbox_origin : String
square_sandbox_origin = "https://connect.squareupsandbox.com"

-- `v && Number.isFinite(Date.parse(v)) ? v : null`
abbrev pub dated : (String → Bool) → Value → Exc Value
dated date_finite v =
    if is_truthy v
    then bind (to_string v) (λ s. ok (if date_finite s then v else null))
    else ok null

-- `value ?? null`
abbrev pub or_null : Value → Value
or_null undefined = null
or_null v = v

-- `value ?? ""`, and the test `!value` of a setting
abbrev pub or_empty : Option String → String
or_empty none = ""
or_empty (some s) = s

-- `setting === value`
abbrev pub is_setting : Option String → String → Bool
is_setting none value = false
is_setting (some s) value = s === value

abbrev pub request_id_value : Option String → Value
request_id_value none = null
request_id_value (some s) = str s
