-- ===== src/Workers/Alerts/Events.antt =====
-- The consumption of a delivery, and the handler: src/process_event_delivery.ts and
-- src/handle_request.ts of momi-order-alert-worker-v1.
use mathlib.Core.Bool.{false, true}
use mo_xx.Workers.Projection.{failure_text, result_of, error_name, DeliveryResult}
use mo_xx.Workers.Alerts.{ignored_non_live_event, ready, StagedEventWork}
use mathlib.Core.Option.{none}
use mo_xx.Workers.Delivery.{is_error_code, DeliveryTrigger}
use mo_xx.Workers.Alerts.Work.{execute_work}
use mo_xx.Workers.Alerts.Execution.{
  stage_event_work, fail_delivery, begin_delivery, acknowledge_delivery, ExecutionResult, AlertCall,
  AlertWorld,
}
use Prim.Native.String
use mo_xx.Shared.{◌||◌, not, ◌==◌, if◌then◌else◌, Bool, some, String, Option}
use mo_xx.Js.Session.{other, error, Session, ◌>>=◌, call, pure, fail, catch, Thrown}

abbrev pub alert_message : Thrown → String
alert_message (error name message) = message
alert_message other = "unknown"

abbrev or_default : Option String → String
or_default none = "alert_work_failed"
or_default (some e) = e

module _ (w : AlertWorld) where
  abbrev pub acknowledged : DeliveryTrigger → String → Bool → Session AlertCall DeliveryResult
  acknowledged d outcome true = pure (result_of d outcome none)
  acknowledged d outcome false = fail "acknowledgement_failed"

  unfoldable pub acknowledge : DeliveryTrigger → String → Session AlertCall DeliveryResult
  acknowledge d outcome =
      call (acknowledge_delivery d) (w.acknowledge_of d) >>= acknowledged d outcome

  unfoldable pub after_execution :
      DeliveryTrigger → ExecutionResult → Session AlertCall DeliveryResult
  unfolding acknowledge
  after_execution d execution =
      if execution.status == 409
      then pure (result_of d "in_progress" none)
      else if not (execution.status == 200) || not execution.is_ok
      then fail (or_default execution.error_code)
      else acknowledge d "processed"

  unfoldable pub use_staged :
      DeliveryTrigger → Option StagedEventWork → Session AlertCall DeliveryResult
  unfolding acknowledge execute_work after_execution
  use_staged d none = fail "event_reference_mismatch"
  use_staged d (some ignored_non_live_event) = acknowledge d "ignored_non_live_event"
  use_staged d (some (ready work_id token true)) = acknowledge d "replay"
  use_staged d (some (ready work_id token false)) =
      execute_work w (record { work_id = work_id; trigger_token = token }) (some d)
      >>= after_execution d

  unfoldable pub use_begun : DeliveryTrigger → Bool → Session AlertCall DeliveryResult
  unfolding use_staged
  use_begun d false = pure (result_of d "duplicate" none)
  use_begun d true = call (stage_event_work d) (w.stage_of d) >>= use_staged d

  -- the `catch` block
  unfoldable pub give_up : DeliveryTrigger → Thrown → Session AlertCall DeliveryResult
  unfolding is_error_code
  give_up d e = do
    let text = String.◌++◌ (error_name e) (String.◌++◌ ": " (alert_message e))
    let code =
        if is_error_code (alert_message e) then alert_message e else "order_alert_event_failed"
    failure ← call (fail_delivery d text) (w.failure_of d text)
    pure (result_of d (failure_text failure) (some code))

  unfoldable pub process_event_delivery : DeliveryTrigger → Session AlertCall DeliveryResult
  unfolding use_begun give_up
  process_event_delivery d =
      catch (call (begin_delivery d) (w.begin_of d) >>= use_begun d) (give_up d)
