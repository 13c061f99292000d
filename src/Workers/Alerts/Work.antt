-- ===== src/Workers/Alerts/Work.antt =====
-- The execution of a work: src/execute_work.ts, src/issue_order_read_capability.ts,
-- src/revoke_order_read_capability.ts and src/complete_work.ts of momi-order-alert-worker-v1.
use mo_xx.Square.Types.{or_empty}
use mathlib.Core.Bool.{true}
use mo_xx.Workers.Delivery.{DeliveryTrigger}
use mo_xx.Workers.Alerts.Responses.{is_valid_order_response}
use mo_xx.Js.Value.{str, prop, strict_eq, Value}
use mo_xx.Workers.Alerts.Execution.{
  complete_work, claim_work, issue_capability, record_failure, is_canonical, revoke_capability,
  ExecutionResult, call_order_api, AlertCall, OrderApiResponse, AlertWorld,
}
use mo_xx.Workers.Alerts.{
  already_succeeded, unavailable, not_found, claimed, WorkClaim, ReadCapability, WorkTriggerInput,
  ClaimedWork,
}
use mo_xx.Shared.{
  [], ◌∷◌, ◌||◌, ◌===◌, ◌==◌, some, not, none, if◌then◌else◌, false, String, Option, Bool, ℕ, List,
}
use mo_xx.Js.Session.{Session, ◌>>=◌, call, pure, fail, catch, finally}

abbrev pub run_result : ℕ → Bool → String → Option String → ExecutionResult
run_result status is_ok work_id error_code = record {
  status = status;
  is_ok = is_ok;
  work_id = work_id;
  error_code = error_code;
}

abbrev pub capability_of : ClaimedWork → List (String × String) → Session AlertCall ReadCapability
capability_of job (row ∷ []) =
    pure (record { contract_key = job.api_contract_key; work_id = row.0; capability_token = row.1 })
capability_of job rows = fail "Canonical read capability was not issued"

abbrev pub code_of : OrderApiResponse → String
code_of response =
    if response.status == 200 then "order_api_contract_mismatch" else "order_api_http_error"

module _ (w : AlertWorld) where
  unfoldable pub issue_order_read_capability :
      ClaimedWork → DeliveryTrigger → Session AlertCall ReadCapability
  issue_order_read_capability job d =
      if not (is_canonical job)
      then fail "Read capability contract is not canonical"
      else call (issue_capability job d) (w.issue_of job d) >>= capability_of job

  abbrev pub after_revocation : Bool → Session AlertCall (Unit {0})
  after_revocation true = pure tt
  after_revocation false = fail "Canonical read capability was not revoked"

  unfoldable pub revoke_order_read_capability : ClaimedWork → String → Session AlertCall (Unit {0})
  revoke_order_read_capability job work_id =
      call (revoke_capability job work_id) (w.revoke_of job work_id) >>= after_revocation

  -- the call of the API, with the `finally` that takes the capability back
  unfoldable pub read_order :
      ClaimedWork → String → Option ReadCapability → Session AlertCall OrderApiResponse
  unfolding call_order_api revoke_order_read_capability
  read_order job project_url none = call_order_api w job project_url none
  read_order job project_url (some c) =
      finally (call_order_api w job project_url (some c))
        (revoke_order_read_capability job c.work_id)

  abbrev pub decided : ClaimedWork → Bool → Session AlertCall ExecutionResult
  decided job true = pure (run_result 200 true job.work_id none)
  decided job false = fail "Alert decision was not persisted"

  unfoldable pub complete : ClaimedWork → Value → Session AlertCall ExecutionResult
  complete job body =
      if not (strict_eq (prop body "contract_key") (str job.api_contract_key))
      then fail "Validated order contract does not match claimed work"
      else call (complete_work job body) (w.complete_of job body) >>= decided job

  -- what is made of the answer
  unfoldable pub use_response :
      ClaimedWork → Option ReadCapability → OrderApiResponse → Session AlertCall ExecutionResult
  unfolding is_valid_order_response complete
  use_response job capability response =
      if not (response.status == 200)
        || not (is_valid_order_response w.date_finite response.body job capability)
      then (let code = code_of response in
          call (record_failure job (some response.status) code)
            (w.record_of job (some response.status) code)
          >>= λ _. pure (run_result 502 false job.work_id (some code)))
      else complete job response.body

  unfoldable pub read_and_use :
      ClaimedWork → String → Option ReadCapability → Session AlertCall ExecutionResult
  unfolding read_order use_response
  read_and_use job project_url capability =
      read_order job project_url capability >>= use_response job capability

  unfoldable pub issue_and_read :
      ClaimedWork → String → DeliveryTrigger → Session AlertCall ExecutionResult
  unfolding issue_order_read_capability read_and_use
  issue_and_read job project_url d =
      issue_order_read_capability job d >>= λ c. read_and_use job project_url (some c)

  -- the `try` block
  unfoldable pub attempt :
      ClaimedWork → String → Option DeliveryTrigger → Session AlertCall ExecutionResult
  unfolding issue_and_read read_and_use
  attempt job project_url none =
      if is_canonical job
      then fail "Canonical read requires exact delivery authority"
      else read_and_use job project_url none
  attempt job project_url (some d) =
      if is_canonical job
      then issue_and_read job project_url d
      else fail "Legacy read cannot use delivery authority"

  abbrev pub request_failed : ClaimedWork → Session AlertCall ExecutionResult
  request_failed job =
      call (record_failure job none "order_api_request_failed")
        (w.record_of job none "order_api_request_failed")
      >>= λ _. pure (run_result 502 false job.work_id (some "order_api_request_failed"))

  unfoldable pub execute_claim :
      WorkTriggerInput
      → String
      → Option DeliveryTrigger
      → WorkClaim
      → Session AlertCall ExecutionResult
  unfolding attempt
  execute_claim input project_url d not_found =
      pure (run_result 404 false input.work_id (some "work_not_found"))
  execute_claim input project_url d unavailable =
      pure (run_result 409 false input.work_id (some "work_unavailable"))
  execute_claim input project_url d already_succeeded =
      pure (run_result 200 true input.work_id none)
  execute_claim input project_url d (claimed job) =
      catch (attempt job project_url d) (λ e. request_failed job)

  abbrev pub is_set : Option String → Bool
  is_set none = false
  is_set (some s) = not (s === "")

  unfoldable pub execute_work :
      WorkTriggerInput → Option DeliveryTrigger → Session AlertCall ExecutionResult
  unfolding execute_claim
  execute_work input d =
      if not (is_set w.code_sha) || not (is_set w.project_url) || not (is_set w.gateway_key)
      then fail "Worker runtime configuration is incomplete"
      else call (claim_work input) (w.claim_of input)
        >>= execute_claim input (or_empty w.project_url) d
