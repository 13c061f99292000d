-- ===== src/Workers/Projection.antt =====
-- warehouse-projection/functions/momi-warehouse-projection-worker-v1: src/types.ts,
-- src/classify_projection_outcome.ts, src/can_continue_worker.ts, src/process_delivery.ts,
-- src/run_background_continuation.ts and src/handle_request.ts. The store of the worker and the
-- clock are parameters.
use mo_xx.Workers.Delivery.{is_error_code, after_prefix, DeliveryTrigger}
use mo_xx.Js.Value.{str, Value}
pub mod Background
pub mod Course
pub mod Rounds
pub mod Endings
pub mod Permission
pub mod Invocation
pub mod Safety
use Prim.Native.String
use mo_xx.Shared.{
  ◌*◌, ◌+◌, true, not, ltb, ◌||◌, ◌&&◌, some, none, false, ◌===◌, leb, has, [], ◌∷◌, if◌then◌else◌,
  Option, Bool, ℕ, String, List,
}
use mo_xx.Js.Session.{
  Thrown, error, other, fail, pure, call, Answer, error, catch, Answer, Thrown, Session, ◌>>=◌,
}

pub record SourceEvent : Type 0 where
  pub event_id : String
  pub event_name : String
  pub source_system : Option String

pub record WorkerSettings : Type 0 where
  pub max_runtime_seconds : ℕ
  pub max_deliveries : ℕ
  pub handoff_reserve_seconds : ℕ
  pub shutdown_margin_seconds : ℕ

pub data DeliveryFailure : Type 0 where
  retry_wait dead_letter not_found : DeliveryFailure

pub record DeliveryResult : Type 0 where
  pub message_id : String
  pub event_id : String
  pub outcome : String
  pub error_code : Option String

-- What the worker asks of its store.
pub data StoreCall : Type 0 where
  begin_delivery read_source_event project_and_acknowledge : DeliveryTrigger → StoreCall
  fail_delivery : DeliveryTrigger → String → StoreCall
  read_worker_settings reserve_next_delivery : StoreCall

pub record WorkerStore : Type 0 where
  pub begin_delivery_of : DeliveryTrigger → Answer StoreCall Bool
  pub source_event_of : DeliveryTrigger → Answer StoreCall (Option SourceEvent)
  pub projection_of : DeliveryTrigger → Answer StoreCall Value
  pub failure_of : DeliveryTrigger → String → Answer StoreCall DeliveryFailure
  pub settings : Answer StoreCall WorkerSettings
  pub next_delivery : Answer StoreCall (Option DeliveryTrigger)
  -- `Date.now()`
  pub now : List StoreCall → ℕ

abbrev named_outcomes : List String
named_outcomes =
    "acquisition_enqueued" ∷ "acquisition_already_enqueued" ∷ "menu_refresh_enqueued"
    ∷ "publication_not_advanced" ∷ []

-- the outcomes that say that a delivery is projected, or ignored for good
unfoldable pub is_projection_outcome : String → Bool
unfolding after_prefix is_error_code
is_projection_outcome s =
    has named_outcomes s
    || s === "projected"
    || after_prefix "projected_" is_error_code s
    || after_prefix "ignored_" is_error_code s

unfoldable pub classify_projection_outcome : Value → Option String
unfolding is_projection_outcome
classify_projection_outcome (str s) = if is_projection_outcome s then some s else none
classify_projection_outcome v = none

unfoldable pub can_continue_worker : WorkerSettings → ℕ → ℕ → ℕ → Bool
can_continue_worker settings started_at_ms now_ms completed =
    if leb settings.max_deliveries completed
    then false
    else ltb (now_ms + (settings.handoff_reserve_seconds + settings.shutdown_margin_seconds) * 1000)
        (started_at_ms + settings.max_runtime_seconds * 1000)

abbrev pub failure_text : DeliveryFailure → String
failure_text retry_wait = "retry_wait"
failure_text dead_letter = "dead_letter"
failure_text not_found = "failed"

abbrev pub error_name : Thrown → String
error_name (error name message) = name
error_name other = "UnknownError"

abbrev pub error_message : Thrown → String
error_message (error name message) = message
error_message other = "unknown_projection_failure"

abbrev pub result_of : DeliveryTrigger → String → Option String → DeliveryResult
result_of trigger outcome error_code = record {
  message_id = trigger.message_id;
  event_id = trigger.event_id;
  outcome = outcome;
  error_code = error_code;
}

-- `sourceEvent.event_id !== trigger.event_id || ...` is false
unfoldable pub is_source_event : DeliveryTrigger → SourceEvent → Bool
unfolding after_prefix
is_source_event trigger event =
    (event.event_id === trigger.event_id)
    && (elim event.source_system [ none ↦ false | some s ↦ s === "toast" ])
    && after_prefix "source.toast." (λ _. true) event.event_name

module _ (store : WorkerStore) where
  -- the answer of the projection
  unfoldable pub conclude : DeliveryTrigger → Option String → Session StoreCall DeliveryResult
  conclude trigger none = fail "unexpected_projection_outcome"
  conclude trigger (some outcome) = pure (result_of trigger outcome none)

  unfoldable pub project_event :
      DeliveryTrigger → Option SourceEvent → Session StoreCall DeliveryResult
  unfolding is_source_event classify_projection_outcome conclude
  project_event trigger none = fail "source_event_not_found"
  project_event trigger (some event) =
      if not (is_source_event trigger event)
      then fail "source_event_mismatch"
      else call (project_and_acknowledge trigger) (store.projection_of trigger) >>= λ outcome.
          conclude trigger (classify_projection_outcome outcome)

  unfoldable pub begun_delivery : DeliveryTrigger → Bool → Session StoreCall DeliveryResult
  unfolding project_event
  begun_delivery trigger false = pure (result_of trigger "duplicate" none)
  begun_delivery trigger true =
      call (read_source_event trigger) (store.source_event_of trigger) >>= project_event trigger

  -- the `catch` block
  unfoldable pub fail_with : DeliveryTrigger → Thrown → Session StoreCall DeliveryResult
  unfolding is_error_code
  fail_with trigger e = do
    let text = String.◌++◌ (error_name e) (String.◌++◌ ": " (error_message e))
    let code = if is_error_code (error_message e) then error_message e else "projection_failed"
    failure ← call (fail_delivery trigger text) (store.failure_of trigger text)
    pure (result_of trigger (failure_text failure) (some code))

  unfoldable pub process_delivery : DeliveryTrigger → Session StoreCall DeliveryResult
  unfolding begun_delivery fail_with
  process_delivery trigger =
      catch
        (call (begin_delivery trigger) (store.begin_delivery_of trigger) >>= begun_delivery trigger)
        (fail_with trigger)
