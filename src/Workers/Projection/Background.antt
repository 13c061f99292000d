-- ===== src/Workers/Projection/Background.antt =====
-- The loop of the worker and its handler: src/run_background_continuation.ts and
-- src/handle_request.ts of momi-warehouse-projection-worker-v1.
use Prim.Native.Nat.{zero}
use mo_xx.Workers.Projection.{
  reserve_next_delivery, read_worker_settings, process_delivery, classify_projection_outcome,
  can_continue_worker, WorkerSettings, StoreCall, WorkerStore, DeliveryResult,
}
use mo_xx.Workers.Delivery.{parse_delivery_trigger, DeliveryTrigger}
use mo_xx.Js.Value.{bool, field, end, str, obj, Fields, Value}
use mo_xx.Shared.{
  false, ◌===◌, ◌+◌, true, not, suc, some, if◌then◌else◌, none, Bool, ℕ, String, Option,
}
use mo_xx.Js.Session.{thrown, returned, pure, call, Session, Result, at_time, catch, ◌>>=◌}

pub record Continuation : Type 0 where
  pub trigger : DeliveryTrigger
  pub settings : WorkerSettings
  pub started_at_ms : ℕ
  pub completed_deliveries : ℕ

-- How the loop ends: by its tests, with the number of deliveries, or by an exception, which it
-- catches.
pub data Ending : Type 0 where
  finished : ℕ → Ending
  stopped : Ending

-- A request, by what the handler reads of it.
pub record Request : Type 0 where
  pub method : String
  pub json : Result Value

pub record Response : Type 0 where
  pub status : ℕ
  pub body : Value

-- What the handler gives: its answer, and the work that it leaves to the background.
pub record Handled : Type 0 where
  pub response : Response
  pub continuation : Option Continuation

abbrev function_key : Value
function_key = str "momi.warehouse_projection.toast.consume.v1"

abbrev pub answer : ℕ → Value → Handled
answer status body = record {
  response = record { status = status; body = body };
  continuation = none;
}

abbrev pub refusal : ℕ → String → Handled
refusal status code = answer status (
    obj
      (field "ok" (bool false) (field "function_key" function_key (field "error" (str code) end))))

abbrev error_field : Option String → Fields
error_field none = end
error_field (some code) = field "error" (str code) end

-- `{ ok: result.outcome !== "failed", function_key: functionKey, ...result }`
abbrev pub result_body : DeliveryResult → Value
result_body r = obj (
    field "ok" (bool (not (r.outcome === "failed"))) (
      field "function_key" function_key (
        field "message_id" (str r.message_id) (
          field "event_id" (str r.event_id)
            (field "outcome" (str r.outcome) (error_field r.error_code))))))

-- `classifyProjectionOutcome(result.outcome)`, as a test
abbrev pub is_projected : DeliveryResult → Bool
is_projected r = elim (classify_projection_outcome (str r.outcome)) [ some _ ↦ true | none ↦ false ]

module _ (store : WorkerStore) where
  -- the end of a round: the next delivery is taken by `again`, or the loop ends
  abbrev pub take_next :
      (DeliveryTrigger → ℕ → Session StoreCall (Option Ending))
      → ℕ
      → Option DeliveryTrigger
      → Session StoreCall (Option Ending)
  take_next again completed none = pure (some (finished completed))
  take_next again completed (some trigger) = again trigger completed

  unfoldable pub reserve_next :
      (DeliveryTrigger → ℕ → Session StoreCall (Option Ending))
      → Continuation
      → ℕ
      → ℕ
      → Session StoreCall (Option Ending)
  unfolding can_continue_worker
  reserve_next again k completed now =
      if not (can_continue_worker k.settings k.started_at_ms now completed)
      then pure (some (finished completed))
      else call reserve_next_delivery store.next_delivery >>= take_next again completed

  unfoldable pub after_delivery :
      (DeliveryTrigger → ℕ → Session StoreCall (Option Ending))
      → Continuation
      → ℕ
      → DeliveryResult
      → Session StoreCall (Option Ending)
  unfolding classify_projection_outcome reserve_next
  after_delivery again k completed result =
      if not (is_projected result)
      then pure (some (finished completed))
      else at_time store.now (reserve_next again k completed)

  -- `while (current)`; without fuel there is no ending
  unfoldable pub deliver_loop :
      ℕ → Continuation → DeliveryTrigger → ℕ → Session StoreCall (Option Ending)
  unfolding process_delivery after_delivery
  deliver_loop zero k current completed = pure none
  deliver_loop (suc fuel) k current completed =
      process_delivery store current >>= after_delivery (deliver_loop fuel k) k (completed + 1)

  unfoldable pub run_background_continuation : ℕ → Continuation → Session StoreCall (Option Ending)
  unfolding deliver_loop
  run_background_continuation fuel k =
      catch (deliver_loop fuel k k.trigger k.completed_deliveries) (λ _. pure (some stopped))

  abbrev pub continue_with :
      WorkerSettings → ℕ → Option DeliveryTrigger → Session StoreCall (Option Continuation)
  continue_with settings started none = pure none
  continue_with settings started (some next) = pure (
      some (record {
        trigger = next;
        settings = settings;
        started_at_ms = started;
        completed_deliveries = 1;
      }))

  unfoldable pub reserve_first : ℕ → WorkerSettings → ℕ → Session StoreCall (Option Continuation)
  unfolding can_continue_worker
  reserve_first started settings now =
      if can_continue_worker settings started now 1
      then call reserve_next_delivery store.next_delivery >>= continue_with settings started
      else pure none

  -- the inner `try` block of the handler
  unfoldable pub hand_off : ℕ → DeliveryResult → Session StoreCall (Option Continuation)
  unfolding classify_projection_outcome reserve_first
  hand_off started result =
      if is_projected result
      then catch
          (call read_worker_settings store.settings >>= λ settings.
            at_time store.now (reserve_first started settings))
          (λ _. pure none)
      else pure none

  unfoldable pub serve_delivery : ℕ → DeliveryTrigger → Session StoreCall Handled
  unfolding process_delivery hand_off
  serve_delivery started trigger =
      catch
        (process_delivery store trigger >>= λ result. hand_off started result >>= λ continuation.
          pure (record (answer 200 (result_body result)) { continuation = continuation }))
        (λ _. pure (refusal 500 "worker_failed"))

  unfoldable pub serve_trigger : ℕ → Option DeliveryTrigger → Session StoreCall Handled
  unfolding serve_delivery
  serve_trigger started none = pure (refusal 400 "invalid_request")
  serve_trigger started (some trigger) = serve_delivery started trigger

  unfoldable pub serve_body : ℕ → Result Value → Session StoreCall Handled
  unfolding parse_delivery_trigger serve_trigger
  serve_body started (returned body) = serve_trigger started (parse_delivery_trigger body)
  serve_body started (thrown e) = pure (refusal 400 "invalid_request")

  unfoldable pub handle_request : Request → Session StoreCall Handled
  unfolding serve_body
  handle_request request = at_time store.now λ started.
      if request.method === "GET"
      then pure (answer 200 (obj (field "ok" (bool true) (field "function_key" function_key end))))
      else if not (request.method === "POST")
      then pure (answer 405 (str "method not allowed"))
      else serve_body started request.json

  -- what runs in the background once the request is handled
  unfoldable pub run_rest : ℕ → Option Continuation → Session StoreCall (Option Ending)
  unfolding run_background_continuation
  run_rest fuel none = pure (some (finished 1))
  run_rest fuel (some k) = run_background_continuation fuel k

  -- a whole invocation, the work in the background included
  unfoldable pub invoke : ℕ → Request → Session StoreCall (Option Ending)
  unfolding handle_request run_rest
  invoke fuel request = handle_request request >>= λ d. run_rest fuel d.continuation
