-- ===== src/Workers/Projection/Course.antt =====
-- The course of one delivery: what processDelivery asks of the store, and what it then returns.
use mo_xx.Js.Value.{str, Value}
use mo_xx.Workers.Delivery.{all_code, is_error_code, DeliveryTrigger}
use mo_xx.Workers.Projection.{
  project_event, process_delivery, fail_with, begun_delivery, failure_text, DeliveryFailure,
  is_projection_outcome, is_source_event, result_of, classify_projection_outcome, DeliveryResult,
  conclude, SourceEvent, error_message, StoreCall, error_name, WorkerStore,
}
use Prim.Native.String
use mo_xx.Shared.{
  inr, refl, inl, Option, Bool, Bool-cases, none, some, true, false, ◌≡◌, [], ◌∷◌, ◌++◌, String,
  List,
}
use mo_xx.Js.Session.{continue, error, rescue, thrown, returned, Step, Thrown, pure, Result}

abbrev pub failure_message : Thrown → String
failure_message e = String.◌++◌ (error_name e) (String.◌++◌ ": " (error_message e))

projection_failed_code : is_error_code "projection_failed" ≡ true
unfolding is_error_code all_code
projection_failed_code = refl

module _ (store : WorkerStore) (t : DeliveryTrigger) (h : List StoreCall) where
  abbrev begin_call : List StoreCall
  begin_call = StoreCall.begin_delivery t ∷ []

  abbrev read_calls : List StoreCall
  read_calls = begin_call ++ StoreCall.read_source_event t ∷ []

  -- the calls when the event has been read
  abbrev after_read : List StoreCall
  after_read = (h ++ begin_call) ++ StoreCall.read_source_event t ∷ []

  -- An event of the trigger's that the store has read for a delivery that it has begun.
  pub record IsRead : Type 0 where
    pub event : SourceEvent
    pub begun : store.begin_delivery_of t h ≡ returned true
    pub read : store.source_event_of t (h ++ begin_call) ≡ returned (some event)
    pub is_source : is_source_event t event ≡ true

  -- The `try` block: a repeated delivery, a projection, or an exception.
  data Tried (s : Step StoreCall DeliveryResult) : Type 0 where
    repeated :
        store.begin_delivery_of t h ≡ returned false
        → s.result ≡ returned (result_of t "duplicate" none)
        → s.calls ≡ begin_call
        → Tried s
    projected :
        (o : String)
        → IsRead
        → store.projection_of t after_read ≡ returned (str o)
        → is_projection_outcome o ≡ true
        → s.result ≡ returned (result_of t o none)
        → s.calls ≡ read_calls ++ StoreCall.project_and_acknowledge t ∷ []
        → Tried s
    threw : (e : Thrown) → s.result ≡ thrown e → Tried s

  -- A whole delivery. It is a repeated one, which is left alone; or its event was read and projected,
  -- and the outcome is the store's; or the store is told of its failure, and the outcome is what the
  -- store makes of that, or its exception.
  pub data IsCourse (s : Step StoreCall DeliveryResult) : Type 0 where
    repeated :
        store.begin_delivery_of t h ≡ returned false
        → s.result ≡ returned (result_of t "duplicate" none)
        → s.calls ≡ begin_call
        → IsCourse s
    projected :
        (o : String)
        → IsRead
        → store.projection_of t after_read ≡ returned (str o)
        → is_projection_outcome o ≡ true
        → s.result ≡ returned (result_of t o none)
        → s.calls ≡ read_calls ++ StoreCall.project_and_acknowledge t ∷ []
        → IsCourse s
    failed :
        (before : List StoreCall) (text code : String) (f : DeliveryFailure)
        → s.calls ≡ before ++ StoreCall.fail_delivery t text ∷ []
        → store.failure_of t text (h ++ before) ≡ returned f
        → is_error_code code ≡ true
        → s.result ≡ returned (result_of t (failure_text f) (some code))
        → IsCourse s
    lost :
        (before : List StoreCall) (text : String) (e : Thrown)
        → s.calls ≡ before ++ StoreCall.fail_delivery t text ∷ []
        → store.failure_of t text (h ++ before) ≡ thrown e
        → s.result ≡ thrown e
        → IsCourse s

  -- the calls of the try block, given those from the projection on
  abbrev after_begin :
      List StoreCall → Step StoreCall DeliveryResult → Step StoreCall DeliveryResult
  after_begin cs s = record { result = s.result; calls = cs ++ s.calls }

  conclude-Tried :
      (v : Value)
      → IsRead
      → store.projection_of t after_read ≡ returned v
      → Tried (
          after_begin (read_calls ++ StoreCall.project_and_acknowledge t ∷ []) (
            conclude store t
              (classify_projection_outcome v)
              (after_read ++ StoreCall.project_and_acknowledge t ∷ [])))
  unfolding conclude classify_projection_outcome
  conclude-Tried (str o) i e = elim (Bool-cases (is_projection_outcome o)) [
    | inl p ↦ rw p (Tried.projected o i e p refl refl)
    | inr p ↦ rw p (Tried.threw (error "Error" "unexpected_projection_outcome") refl)
  ]
  conclude-Tried v i e = Tried.threw (error "Error" "unexpected_projection_outcome") refl

  answer-Tried :
      (r : Result Value)
      → IsRead
      → store.projection_of t after_read ≡ r
      → Tried (
          after_begin read_calls (
            continue r
              (StoreCall.project_and_acknowledge t ∷ [])
              after_read
              λ v. conclude store t (classify_projection_outcome v)))
  answer-Tried (returned v) i e = conclude-Tried v i e
  answer-Tried (thrown x) i e = Tried.threw x refl

  event-Tried :
      (r : Result (Option SourceEvent))
      → store.begin_delivery_of t h ≡ returned true
      → store.source_event_of t (h ++ begin_call) ≡ r
      → Tried (
          after_begin begin_call (
            continue r
              (StoreCall.read_source_event t ∷ [])
              (h ++ begin_call)
              (project_event store t)))
  unfolding project_event
  event-Tried (returned (some ev)) b e = elim (Bool-cases (is_source_event t ev)) [
    | inl p ↦ rw p (
        answer-Tried (store.projection_of t after_read)
          (record { event = ev; begun = b; read = e; is_source = p }) refl)
    | inr p ↦ rw p (Tried.threw (error "Error" "source_event_mismatch") refl)
  ]
  event-Tried (returned none) b e = Tried.threw (error "Error" "source_event_not_found") refl
  event-Tried (thrown x) b e = Tried.threw x refl

  begun-Tried :
      (r : Result Bool)
      → store.begin_delivery_of t h ≡ r
      → Tried (continue r begin_call h (begun_delivery store t))
  unfolding begun_delivery
  begun-Tried (returned true) e = event-Tried (store.source_event_of t (h ++ begin_call)) e refl
  begun-Tried (returned false) e = Tried.repeated e refl refl
  begun-Tried (thrown x) e = Tried.threw x refl

  failure-IsCourse :
      (before : List StoreCall) (e : Thrown) (text code : String) (r : Result DeliveryFailure)
      → store.failure_of t text (h ++ before) ≡ r
      → is_error_code code ≡ true
      → IsCourse (
          after_begin before (
            continue r
              (StoreCall.fail_delivery t text ∷ [])
              (h ++ before)
              λ f. pure (result_of t (failure_text f) (some code))))
  failure-IsCourse before e text code (returned f) eq p =
      IsCourse.failed before text code f refl eq p refl
  failure-IsCourse before e text code (thrown x) eq p = IsCourse.lost before text x refl eq refl

  rescue-IsCourse :
      (r : Result DeliveryResult) (cs : List StoreCall)
      → Tried (record { result = r; calls = cs })
      → IsCourse (rescue r cs h (fail_with store t))
  unfolding fail_with
  rescue-IsCourse (returned x) cs (Tried.repeated b e c) = IsCourse.repeated b e c
  rescue-IsCourse (returned x) cs (Tried.projected o i p k e c) = IsCourse.projected o i p k e c
  rescue-IsCourse (returned x) cs (Tried.threw y e) = cc
  rescue-IsCourse (thrown y) cs tried = elim (Bool-cases (is_error_code (error_message y))) [
    | inl p ↦ rw p (
        failure-IsCourse cs y (failure_message y) (error_message y)
          (store.failure_of t (failure_message y) (h ++ cs)) refl p)
    | inr p ↦ rw p (
        failure-IsCourse cs y (failure_message y) "projection_failed"
          (store.failure_of t (failure_message y) (h ++ cs)) refl projection_failed_code)
  ]

  -- A delivery of the projection is a repeated one, which is left alone; or it was begun, its own
  -- event read and projected with an outcome of the kind, which is returned; or the store is told
  -- of its failure, and what the store makes of that is returned with an error code, or its
  -- exception thrown.
  pub process_delivery-IsCourse : IsCourse (process_delivery store t h)
  unfolding process_delivery
  process_delivery-IsCourse =
      let s = continue (store.begin_delivery_of t h) begin_call h (begun_delivery store t) in
      rescue-IsCourse s.result s.calls (begun-Tried (store.begin_delivery_of t h) refl)
