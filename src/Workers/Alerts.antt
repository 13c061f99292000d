-- ===== src/Workers/Alerts.antt =====
-- order-alerting/functions/momi-order-alert-worker-v1: src/types.ts, src/delivery_types.ts,
-- src/parse_request.ts, src/parse_delivery_trigger.ts and src/read_publishable_key.ts.
pub mod Presentation
pub mod SameJson
pub mod Document
pub mod Responses
pub mod Execution
pub mod Work
pub mod Events
pub mod Handler
pub mod Routes
pub mod Authority
pub mod Reads
pub mod Claims
pub mod Acknowledgement
use Prim.Native.Char.{code}
use mo_xx.Js.Value.{str, keys, field_of, is_positive_safe, as_text, obj, number, Number, Value}
use mo_xx.Js.Check.{throw, ok, get, bind, text_with, Exc}
use mo_xx.Workers.Delivery.{DeliveryTrigger, parse_delivery_trigger, is_positive_decimal}
use mo_xx.Js.Text.{is_uuid_v5}
use Prim.Native.String
use mo_xx.Shared.{
  has, ◌||◌, ◌==◌, none, length, ◌===◌, ◌-◌, not, leb, if◌then◌else◌, ◌+◌, ◌&&◌, some, ◌*◌, Option,
  Bool, ℕ, String, List,
}
use mo_xx.Js.Session.{Session}

abbrev pub exact_order_contract : String
exact_order_contract = "momi.orders.get_by_version.v1"

abbrev pub latest_order_contract : String
latest_order_contract = "momi.orders.get_by_id.v1"

abbrev pub legacy_order_contract : String
legacy_order_contract = "momi.toast_orders.get_by_id.v1"

pub record WorkTriggerInput : Type 0 where
  pub work_id : String
  pub trigger_token : String

pub record ClaimedWork : Type 0 where
  pub work_id : String
  pub attempt_id : String
  pub invocation_id : String
  pub source_system : String
  pub source_version_id : String
  pub location_id : Option String
  pub order_id : String
  pub api_contract_key : String
  pub api_contract_version : Number × String
  pub api_route_path : String
  pub trigger_token : String

pub record ReadCapability : Type 0 where
  pub contract_key : String
  pub work_id : String
  pub capability_token : String

pub data WorkClaim : Type 0 where
  claimed : ClaimedWork → WorkClaim
  already_succeeded unavailable not_found : WorkClaim

pub data StagedEventWork : Type 0 where
  ignored_non_live_event : StagedEventWork
  -- the work's identifier, its token, and whether it has succeeded
  ready : String → String → Bool → StagedEventWork

-- The decimal digits of a text as a number, as `BigInt` reads them.
unfoldable pub decimal_value : ℕ → String → ℕ
decimal_value n String.[] = n
decimal_value n (String.◌∷◌ c s) = decimal_value (n * 10 + (code c - b'0')) s

-- `maxWorkId` and `maxMessageId`
abbrev pub max_bigint : ℕ
max_bigint = 9223372036854775807

abbrev is_bigint : String → Bool
is_bigint s = is_positive_decimal s && leb (decimal_value 0 s) max_bigint

abbrev trigger_with : String → Value → Option WorkTriggerInput
trigger_with work_id token = some (record { work_id = work_id; trigger_token = as_text token })

unfoldable pub work_trigger_of : Value → Value → Option WorkTriggerInput
unfolding is_positive_decimal decimal_value
work_trigger_of token (number n t) =
    if is_positive_safe (number n t) then trigger_with t token else none
work_trigger_of token (str s) = if is_bigint s then trigger_with s token else none
work_trigger_of token v = none

unfoldable pub parse_work_trigger : Value → Option WorkTriggerInput
unfolding is_uuid_v5 work_trigger_of
parse_work_trigger (obj fs) =
    if not (length (keys fs) == 2)
      || not (has (keys fs) "work_id")
      || not (text_with is_uuid_v5 (field_of fs "trigger_token"))
    then none
    else work_trigger_of (field_of fs "trigger_token") (field_of fs "work_id")
parse_work_trigger v = none

-- The trigger of a delivery is read as in the projection's worker, and its message's identifier is
-- bounded, after the test of the pattern.
unfoldable pub parse_alert_trigger : Value → Option DeliveryTrigger
unfolding parse_delivery_trigger decimal_value is_positive_decimal
parse_alert_trigger (obj fs) =
    if not (text_with is_bigint (field_of fs "message_id"))
    then none
    else parse_delivery_trigger (obj fs)
parse_alert_trigger v = none

-- `readPublishableKey`, of the text of the environment and what parsing it gives
unfoldable pub publishable_key : (String → Exc Value) → Option String → Option String
publishable_key parse none = none
publishable_key parse (some raw) =
    if raw === "" then none else elim (bind (parse raw) (λ v. get v "default")) [
      | ok v ↦ if text_with (λ s. not (s === "")) v then some (as_text v) else none
      | throw e ↦ none
    ]
