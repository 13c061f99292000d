-- ===== src/Tests/Projection.antt =====
-- The worker of the warehouse projection, at a store with three deliveries.
use mo_xx.Js.Text.{matches}
use mo_xx.Workers.Projection.Endings.{run_background_continuation-ends}
use mo_xx.Workers.Projection.Rounds.{run_background_continuation-bounded, deliveries}
use mo_xx.Workers.Delivery.{DeliveryTrigger}
use mo_xx.Tests.{attempt_uuid, order_uuid}
use mo_xx.Js.Value.{field_of, end, str, field, obj}
use mo_xx.Workers.Projection.Safety.{invoke-IsJustified, IsJustified}
use mo_xx.Workers.Projection.Course.{process_delivery-IsCourse, IsCourse}
use mo_xx.Workers.Projection.Background.{
  finished, run_background_continuation, invoke, Request, Ending, Continuation,
}
use mo_xx.Workers.Projection.{
  retry_wait, process_delivery, WorkerStore, WorkerSettings, SourceEvent,
}
use mo_xx.Shared.{
  ◌*◌, ◌==◌, ◌===◌, refl, if◌then◌else◌, arith, ◌≤◌, ◌≡◌, some, true, [], ◌+◌, String,
}
use mo_xx.Js.Session.{returned}

abbrev trigger_at : String → DeliveryTrigger
trigger_at message_id = record {
  event_id = order_uuid;
  message_id = message_id;
  capability_token = attempt_uuid;
}

abbrev own_event : SourceEvent
own_event = record {
  event_id = order_uuid;
  event_name = "source.toast.orders";
  source_system = some "toast";
}

abbrev settings : WorkerSettings
settings = record {
  max_runtime_seconds = 60;
  max_deliveries = 3;
  handoff_reserve_seconds = 5;
  shutdown_margin_seconds = 5;
}

-- two further deliveries, of which the settings leave no third; the second is not projected
abbrev sample_store : WorkerStore
sample_store = record {
  begin_delivery_of = λ t h. returned true;
  source_event_of = λ t h. returned (some own_event);
  projection_of =
      λ t h. returned (str (if t.message_id === "3" then "held" else "projected_order"));
  failure_of = λ t text h. returned retry_wait;
  settings = λ h. returned settings;
  next_delivery = λ h. returned (some (trigger_at (if deliveries h == 1 then "2" else "3")));
  now = λ h. 1000 * deliveries h;
}

abbrev sample_request : Request
sample_request = record {
  method = "POST";
  json = returned (
      obj (
        field "event_id" (str order_uuid)
          (field "message_id" (str "1") (field "capability_token" (str attempt_uuid) end))));
}

abbrev sample_continuation : Continuation
sample_continuation = record {
  trigger = trigger_at "2";
  settings = settings;
  started_at_ms = 0;
  completed_deliveries = 1;
}

-- The third delivery is reserved and fails, and the loop ends.
invoke_run : (invoke sample_store 5 sample_request []).result ≡ returned (some (finished 3))
unfolding invoke field_of matches
invoke_run = refl

invoke-IsJustified_example :
    IsJustified sample_store sample_request (invoke sample_store 5 sample_request []).calls
invoke-IsJustified_example = invoke-IsJustified sample_store 5 sample_request

run_background_continuation-bounded_example :
    1 + deliveries (run_background_continuation sample_store 5 sample_continuation []).calls ≤ 3
run_background_continuation-bounded_example =
    run_background_continuation-bounded sample_store sample_continuation 5 [] (omega arith)

run_background_continuation-ends_example :
    (e : Ending) × ((run_background_continuation sample_store 5 sample_continuation []).result
      ≡ returned (some e))
run_background_continuation-ends_example =
    run_background_continuation-ends sample_store sample_continuation 5 [] (omega arith)

process_delivery-IsCourse_example :
    IsCourse sample_store (trigger_at "3") [] (process_delivery sample_store (trigger_at "3") [])
process_delivery-IsCourse_example = process_delivery-IsCourse sample_store (trigger_at "3") []
