-- ===== src/Workers/Projection/Permission.antt =====
-- What the worker may ask of its store, in an invocation and the background work that it leaves.
use mo_xx.Workers.Projection.Course.{IsRead, failure_message}
use mo_xx.Workers.Projection.Rounds.{deliveries}
use mo_xx.Workers.Delivery.{DeliveryTrigger}
use mo_xx.Workers.Projection.{
  classify_projection_outcome, is_source_event, read_worker_settings, conclude,
  project_and_acknowledge, reserve_next_delivery, read_source_event, fail_delivery, SourceEvent,
  begin_delivery, project_event, process_delivery, fail_with, can_continue_worker, begun_delivery,
  WorkerSettings, StoreCall, WorkerStore,
}
use mo_xx.Shared.{
  none, false, inr, inl, Bool-cases, String, some, refl, ◌⊎◌, ◌++◌, ◌*◌, arith, ◌+◌, true, [], ◌≡◌,
  ◌∷◌, ◌<◌, Option, Bool, ℕ, List,
}
use mo_xx.Js.Session.{thrown, returned, Thrown, continue, Result}
use mo_xx.Js.Session.Traces.{AllAfter-rescue, AllAfter-continue, AllAfter}

module _ (store : WorkerStore) (started_at_ms : ℕ) (first : DeliveryTrigger) where
  -- A delivery is reserved only while the settings leave a delivery and the time for it.
  abbrev pub IsTimely : WorkerSettings → List StoreCall → Type 0
  IsTimely s h =
      (deliveries h < s.max_deliveries)
      × (store.now h + (s.handoff_reserve_seconds + s.shutdown_margin_seconds) * 1000
          < started_at_ms + s.max_runtime_seconds * 1000)

  -- The call `c`, after the calls `h`: the first delivery is the request's, each other one has just
  -- been reserved; an event is read for a delivery that was begun, and projected if it is the
  -- delivery's own; the settings are the store's.
  abbrev pub IsPermitted : List StoreCall → StoreCall → Type 0
  IsPermitted h (begin_delivery t) =
      ((h ≡ []) × (t ≡ first))
      ⊎ ((g : List StoreCall) × (h ≡ g ++ reserve_next_delivery ∷ [])
          × (store.next_delivery g ≡ returned (some t)))
  IsPermitted h (read_source_event t) =
      (g : List StoreCall) × (h ≡ g ++ begin_delivery t ∷ [])
      × (store.begin_delivery_of t g ≡ returned true)
  IsPermitted h (project_and_acknowledge t) =
      (g : List StoreCall) × (h ≡ (g ++ begin_delivery t ∷ []) ++ read_source_event t ∷ [])
      × IsRead store t g
  IsPermitted h (fail_delivery t text) = Unit
  IsPermitted h read_worker_settings = Unit
  IsPermitted h reserve_next_delivery =
      (s : WorkerSettings) × (g : List StoreCall) × (store.settings g ≡ returned s) × IsTimely s h

  abbrev Permitted : List StoreCall → List StoreCall → Type 0
  Permitted = AllAfter IsPermitted

  project_event-Permitted :
      (t : DeliveryTrigger) (g : List StoreCall) (r : Result (Option SourceEvent))
      → store.begin_delivery_of t g ≡ returned true
      → store.source_event_of t (g ++ begin_delivery t ∷ []) ≡ r
      → Permitted
          (g ++ begin_delivery t ∷ [])
          (continue r
            (read_source_event t ∷ [])
            (g ++ begin_delivery t ∷ [])
            (project_event store t)).calls
  unfolding project_event
  project_event-Permitted t g (returned (some ev)) b e =
      let h = (g ++ begin_delivery t ∷ []) ++ read_source_event t ∷ [] in
      elim (Bool-cases (is_source_event t ev)) [
        | inl p ↦ rw p (
          (g, refl, b),
          AllAfter-continue IsPermitted (store.projection_of t h) (project_and_acknowledge t ∷ []) h
              (λ v. conclude store t (classify_projection_outcome v))
              ((g, refl, record { event = ev; begun = b; read = e; is_source = p }), tt)
              (λ v q.
                conclude-Permitted t (classify_projection_outcome v)
                  (h ++ project_and_acknowledge t ∷ [])),
        )
        | inr p ↦ rw p ((g, refl, b), tt)
      ]
    where
      conclude-Permitted :
          (t : DeliveryTrigger) (o : Option String) (h : List StoreCall)
          → Permitted h (conclude store t o h).calls
      conclude-Permitted t none h = tt
      conclude-Permitted t (some o) h = tt
  project_event-Permitted t g (returned none) b e = ((g, refl, b), tt)
  project_event-Permitted t g (thrown x) b e = ((g, refl, b), tt)

  begun_delivery-Permitted :
      (t : DeliveryTrigger) (g : List StoreCall) (r : Result Bool)
      → store.begin_delivery_of t g ≡ r
      → IsPermitted g (begin_delivery t)
      → Permitted g (continue r (begin_delivery t ∷ []) g (begun_delivery store t)).calls
  unfolding begun_delivery
  begun_delivery-Permitted t g (returned true) e p =
      (p, project_event-Permitted t g (store.source_event_of t (g ++ begin_delivery t ∷ [])) e refl)
  begun_delivery-Permitted t g (returned false) e p = (p, tt)
  begun_delivery-Permitted t g (thrown x) e p = (p, tt)

  fail_with-Permitted :
      (t : DeliveryTrigger) (e : Thrown) (h : List StoreCall)
      → Permitted h (fail_with store t e h).calls
  unfolding fail_with
  fail_with-Permitted t e h =
      AllAfter-continue IsPermitted (store.failure_of t (failure_message e) h)
        (fail_delivery t (failure_message e) ∷ []) h _ (tt, tt) (λ f q. tt)

  pub process_delivery-Permitted :
      (t : DeliveryTrigger) (h : List StoreCall)
      → IsPermitted h (begin_delivery t)
      → Permitted h (process_delivery store t h).calls
  unfolding process_delivery
  process_delivery-Permitted t h p =
      let r = store.begin_delivery_of t h in
      let s = continue r (begin_delivery t ∷ []) h (begun_delivery store t) in
      AllAfter-rescue IsPermitted s.result s.calls h (fail_with store t)
        (begun_delivery-Permitted t h r refl p) (λ e q. fail_with-Permitted t e (h ++ s.calls))

  pub can_continue_worker-IsTimely :
      (s : WorkerSettings) (h : List StoreCall) (completed : ℕ)
      → deliveries h ≡ completed
      → can_continue_worker s started_at_ms (store.now h) completed ≡ true
      → IsTimely s h
  unfolding can_continue_worker
  can_continue_worker-IsTimely s h completed d e = ground arith
