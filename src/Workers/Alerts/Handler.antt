-- ===== src/Workers/Alerts/Handler.antt =====
-- The handler of the alert worker: src/handle_request.ts of momi-order-alert-worker-v1.
use mo_xx.Workers.Delivery.{DeliveryTrigger}
use mo_xx.Workers.Projection.Background.{Request}
use mo_xx.Workers.Projection.{DeliveryResult}
use mo_xx.Workers.Alerts.Events.{process_event_delivery}
use mo_xx.Workers.Alerts.Work.{execute_work}
use mo_xx.Workers.Alerts.{WorkTriggerInput, parse_alert_trigger, parse_work_trigger}
use mo_xx.Workers.Alerts.Execution.{AlertCall, ExecutionResult, AlertWorld}
use mo_xx.Shared.{not, none, ◌===◌, some, if◌then◌else◌, Option, Bool, ℕ, String}
use mo_xx.Js.Session.{Session, ◌>>=◌, pure, catch, returned, thrown}

-- What an answer holds beside the key of the function.
pub data AlertBody : Type 0 where
  healthy : AlertBody
  text : String → AlertBody
  refused : String → AlertBody
  -- the body of a run, and a delivery's result with the test that it has not failed
  ran : ExecutionResult → AlertBody
  consumed : Bool → DeliveryResult → AlertBody

pub record AlertResponse : Type 0 where
  pub status : ℕ
  pub body : AlertBody

abbrev reply : ℕ → AlertBody → AlertResponse
reply status body = record { status = status; body = body }

module _ (w : AlertWorld) where
  -- the `try` block
  unfoldable pub serve_parsed :
      Option WorkTriggerInput → Option DeliveryTrigger → Session AlertCall AlertResponse
  unfolding execute_work process_event_delivery
  serve_parsed (some work) delivery =
      execute_work w work none >>= λ r. pure (reply r.status (ran r))
  serve_parsed none (some delivery) = process_event_delivery w delivery >>= λ r.
      pure (reply 200 (consumed (not (r.outcome === "failed")) r))
  serve_parsed none none = pure (reply 400 (refused "invalid_request"))

  unfoldable pub handle_alert : Request → Session AlertCall AlertResponse
  unfolding serve_parsed parse_work_trigger parse_alert_trigger
  handle_alert request =
      if request.method === "GET"
      then pure (reply 200 healthy)
      else if not (request.method === "POST")
      then pure (reply 405 (text "method not allowed"))
      else elim request.json [
        | thrown e ↦ pure (reply 400 (refused "invalid_request"))
        | returned body ↦
            catch (serve_parsed (parse_work_trigger body) (parse_alert_trigger body))
              (λ e. pure (reply 500 (refused "worker_failed")))
      ]
