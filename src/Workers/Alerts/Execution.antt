-- ===== src/Workers/Alerts/Execution.antt =====
-- The call of the order API: src/call_order_api.ts of momi-order-alert-worker-v1, with what the
-- worker asks of the database and of the API. What they answer are parameters.
use mathlib.Core.Option.{none}
use mo_xx.Workers.Projection.{DeliveryFailure}
use mo_xx.Js.Value.{end, obj, null, str, field, Value, Fields}
use mo_xx.Js.Text.{is_uuid_v5}
use mo_xx.Workers.Delivery.{is_positive_decimal, after_prefix, DeliveryTrigger}
use mo_xx.Workers.Alerts.{
  legacy_order_contract, latest_order_contract, WorkClaim, exact_order_contract, StagedEventWork,
  ReadCapability, WorkTriggerInput, ClaimedWork,
}
use mo_xx.Js.Check.{throw, ok, Exc}
use mo_xx.Shared.{◌||◌, not, ◌&&◌, some, if◌then◌else◌, ◌===◌, true, Option, Bool, ℕ, String, List}
use mo_xx.Js.Session.{given, thrown, returned, Answer, Result, Session, ◌>>=◌, call, pure, fail}

-- An address, as `new URL` takes it apart.
pub record Url : Type 0 where
  pub origin : String
  pub pathname : String
  pub search : String
  pub hash : String
  pub href : String

pub record OrderApiResponse : Type 0 where
  pub status : ℕ
  pub body : Value

-- What a run gives: the fields of its body, `ok` and `work_id` always, and of the others those that
-- stand in it.
pub record ExecutionResult : Type 0 where
  pub status : ℕ
  pub is_ok : Bool
  pub work_id : String
  pub error_code : Option String

-- What the worker asks of the database and of the order API.
pub data AlertCall : Type 0 where
  begin_delivery stage_event_work acknowledge_delivery : DeliveryTrigger → AlertCall
  fail_delivery : DeliveryTrigger → String → AlertCall
  claim_work : WorkTriggerInput → AlertCall
  issue_capability : ClaimedWork → DeliveryTrigger → AlertCall
  revoke_capability : ClaimedWork → String → AlertCall
  post_order_api : Url → Value → AlertCall
  complete_work : ClaimedWork → Value → AlertCall
  -- the work, the status of the answer, and the code
  record_failure : ClaimedWork → Option ℕ → String → AlertCall

pub record AlertWorld : Type 0 where
  pub date_finite : String → Bool
  -- the environment: commit, project and gateway key
  pub code_sha : Option String
  pub project_url : Option String
  pub gateway_key : Option String
  -- `new URL(project)` and `new URL(path, project)`
  pub project_of : String → Result Url
  pub endpoint_of : String → Url → Result Url
  pub begin_of : DeliveryTrigger → Answer AlertCall Bool
  pub stage_of : DeliveryTrigger → Answer AlertCall (Option StagedEventWork)
  pub acknowledge_of : DeliveryTrigger → Answer AlertCall Bool
  pub failure_of : DeliveryTrigger → String → Answer AlertCall DeliveryFailure
  pub claim_of : WorkTriggerInput → Answer AlertCall WorkClaim
  -- the rows of the issued capability, its work and its token
  pub issue_of : ClaimedWork → DeliveryTrigger → Answer AlertCall (List (String × String))
  pub revoke_of : ClaimedWork → String → Answer AlertCall Bool
  pub fetch : Url → Value → Answer AlertCall (ℕ × Result Value)
  -- whether the one row of the decision was written
  pub complete_of : ClaimedWork → Value → Answer AlertCall Bool
  pub record_of : ClaimedWork → Option ℕ → String → Answer AlertCall (Unit {0})

abbrev pub is_canonical : ClaimedWork → Bool
is_canonical job =
    job.api_contract_key === exact_order_contract || job.api_contract_key === latest_order_contract

-- the test of the registered route
unfoldable pub is_exact_route : String → Url → Url → Bool
unfolding after_prefix
is_exact_route path project endpoint =
    after_prefix "/functions/v1/" (λ _. true) path
    && not (after_prefix "//" (λ _. true) path)
    && endpoint.origin === project.origin
    && endpoint.search === ""
    && endpoint.hash === ""
    && endpoint.pathname === path

abbrev text_field : String → String → Fields → Fields
text_field k v fs = field k (str v) fs

unfoldable pub canonical_body : ClaimedWork → Option ReadCapability → Exc Value
unfolding is_positive_decimal is_uuid_v5
canonical_body job none = throw "Canonical Order API requires an exact read capability"
canonical_body job (some c) =
    if not (is_positive_decimal c.work_id)
      || not (is_uuid_v5 c.capability_token)
      || not (c.contract_key === job.api_contract_key)
    then throw "Canonical Order API requires an exact read capability"
    else if not (is_uuid_v5 job.order_id)
        || (job.api_contract_key === exact_order_contract && not (is_uuid_v5 job.source_version_id))
    then throw "Canonical Order API identity is invalid"
    else ok (
        obj (
          text_field "work_id" c.work_id (
            text_field "order_id" job.order_id (
              text_field "capability_token" c.capability_token (
                if job.api_contract_key === exact_order_contract
                then text_field "order_version_id" job.source_version_id end
                else end)))))

unfoldable pub legacy_body : ClaimedWork → Option ReadCapability → Exc Value
legacy_body job none =
    if not (job.api_contract_key === legacy_order_contract)
    then throw "Order API contract is not supported"
    else ok (
        obj (
          text_field "work_id" job.work_id (
            text_field "order_id" job.order_id (text_field "trigger_token" job.trigger_token end))))
legacy_body job (some c) =
    if not (job.api_contract_key === legacy_order_contract)
    then throw "Order API contract is not supported"
    else throw "Legacy Order API cannot receive a read capability"

-- the body that is sent, by the contract
unfoldable pub request_body : ClaimedWork → Option ReadCapability → Exc Value
unfolding canonical_body legacy_body
request_body job capability =
    if is_canonical job then canonical_body job capability else legacy_body job capability

-- `response.json().catch(() => null)`
abbrev pub or_null_body : Result Value → Value
or_null_body (returned v) = v
or_null_body (thrown e) = null

module _ (w : AlertWorld) where
  unfoldable pub post : ClaimedWork → Url → Value → Session AlertCall OrderApiResponse
  post job endpoint body = do
    response ← call (post_order_api endpoint body) (w.fetch endpoint body)
    pure (record { status = response.0; body = or_null_body response.1 })

  abbrev pub send : ClaimedWork → Url → Exc Value → Session AlertCall OrderApiResponse
  send job endpoint (ok body) = post job endpoint body
  send job endpoint (throw e) = fail e

  abbrev pub call_endpoint :
      ClaimedWork → Option ReadCapability → Url → Url → Session AlertCall OrderApiResponse
  call_endpoint job capability project endpoint =
      if not (is_exact_route job.api_route_path project endpoint)
      then fail "Registered Order API route must be an exact same-origin Edge Function path"
      else send job endpoint (request_body job capability)

  unfoldable pub call_order_api :
      ClaimedWork → String → Option ReadCapability → Session AlertCall OrderApiResponse
  unfolding is_exact_route request_body post
  call_order_api job project_url capability = given (w.project_of project_url) λ project.
      given (w.endpoint_of job.api_route_path project) (call_endpoint job capability project)
