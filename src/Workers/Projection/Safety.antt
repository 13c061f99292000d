-- ===== src/Workers/Projection/Safety.antt =====
-- The handler of the worker, and a whole invocation: every call is a permitted one.
use mo_xx.Workers.Projection.Permission.{IsPermitted}
use mo_xx.Js.Value.{Value}
use mathlib.Core.Option.{none}
use mo_xx.Workers.Projection.Rounds.{deliveries-append, deliveries}
use mo_xx.Workers.Projection.Invocation.{
  deliver_loop-Good, Any, process_delivery-Good, Begun, reserve_next_delivery-Good, Permitted,
  Reserved, Good,
}
use mo_xx.Workers.Projection.Background.{
  stopped, handle_request, deliver_loop, serve_trigger, serve_body, run_background_continuation,
  invoke, run_rest, Request, refusal, result_body, answer, is_projected, serve_delivery,
  reserve_first, hand_off, continue_with, Handled, Continuation,
}
use mo_xx.Workers.Delivery.{parse_delivery_trigger, DeliveryTrigger}
use mo_xx.Workers.Projection.{
  reserve_next_delivery, read_worker_settings, process_delivery, can_continue_worker,
  DeliveryResult, begin_delivery, WorkerSettings, StoreCall, WorkerStore,
}
use mo_xx.Shared.{
  ===→eq, ◌===◌, ◌⊎◌, inr, ◌++◌, arith, ◌∷◌, inl, refl, [], Bool-cases, some, Option, ℕ, List, ◌≡◌,
}
use mo_xx.Js.Session.{thrown, Result, ◌>>=◌, pure, continue, Step, returned}
use mo_xx.Js.Session.Traces.{AllAfter, IsGood-pure, IsGood-continue, IsGood-rescue}

module _ (store : WorkerStore) (started_at_ms : ℕ) (first : DeliveryTrigger) where
  -- Work left to the background stands where its deliveries, its settings and its start say.
  record Continues (h : List StoreCall) (k : Continuation) : Type 0 where
    before : List StoreCall
    settings : store.settings before ≡ returned k.settings
    started : k.started_at_ms ≡ started_at_ms
    completed : deliveries h ≡ k.completed_deliveries
    reserved : Permitted store started_at_ms first h (begin_delivery k.trigger)

  abbrev Left : List StoreCall → Option Continuation → Type 0
  Left h none = Unit
  Left h (some k) = Continues h k

  abbrev Rest :
      {A : Type 0} → (List StoreCall → A → Type 0) → List StoreCall → Step StoreCall A → Type 0
  Rest Q h s = Good store started_at_ms first Q h s

  abbrev Admitted : List StoreCall → StoreCall → Type 0
  Admitted = Permitted store started_at_ms first

  continue_with-Good :
      (s : WorkerSettings) (g h : List StoreCall) (o : Option DeliveryTrigger)
      → store.settings g ≡ returned s
      → Reserved store started_at_ms first 1 h o
      → Rest Left h (continue_with store s started_at_ms o h)
  continue_with-Good s g h none e (d, p) = IsGood-pure Admitted Left h none tt
  continue_with-Good s g h (some t) e (d, p) =
      IsGood-pure Admitted Left h _
        (record { before = g; settings = e; started = refl; completed = d; reserved = p t refl })

  reserve_first-Good :
      (s : WorkerSettings) (g h : List StoreCall)
      → store.settings g ≡ returned s
      → deliveries h ≡ 1
      → Rest Left h (reserve_first store started_at_ms s (store.now h) h)
  unfolding reserve_first
  reserve_first-Good s g h e d =
      elim (Bool-cases (can_continue_worker s started_at_ms (store.now h) 1)) [
        | inl c ↦ rw c (
            IsGood-continue Admitted (Reserved store started_at_ms first 1) Left
              (store.next_delivery h) (reserve_next_delivery ∷ []) h
              (continue_with store s started_at_ms)
              (reserve_next_delivery-Good store started_at_ms first h g s 1 e d c)
              (λ o r. continue_with-Good s g (h ++ reserve_next_delivery ∷ []) o e r))
        | inr c ↦ rw c (IsGood-pure Admitted Left h none tt)
      ]

  -- the settings that the store has just given
  abbrev Settled : List StoreCall → List StoreCall → WorkerSettings → Type 0
  Settled g h s = (store.settings g ≡ returned s) × (deliveries h ≡ 1)

  hand_off-Good :
      (result : DeliveryResult) (h : List StoreCall)
      → deliveries h ≡ 1
      → Rest Left h (hand_off store started_at_ms result h)
  unfolding hand_off
  hand_off-Good result h d = elim (Bool-cases (is_projected result)) [
    | inl p ↦
        let inner =
          continue (store.settings h) (read_worker_settings ∷ []) h
            (λ s l. reserve_first store started_at_ms s (store.now l) l) in
        rw p (
          IsGood-rescue Admitted Left inner.result inner.calls h (λ _. pure none)
            (IsGood-continue Admitted (Settled h) Left (store.settings h)
              (read_worker_settings ∷ []) h
              (λ s l. reserve_first store started_at_ms s (store.now l) l)
              (record {
                admitted = (tt, tt);
                known = λ s e. (e, omega (arith, deliveries-append h (read_worker_settings ∷ [])));
              })
              (λ s q. reserve_first-Good s h (h ++ read_worker_settings ∷ []) q.0 q.1))
            (λ x. IsGood-pure Admitted Left (h ++ inner.calls) none tt))
    | inr p ↦ rw p (IsGood-pure Admitted Left h none tt)
  ]

  abbrev Leaves : List StoreCall → Handled → Type 0
  Leaves h d = Left h d.continuation

  serve_delivery-Good : Rest Leaves [] (serve_delivery store started_at_ms first [])
  unfolding serve_delivery
  serve_delivery-Good =
      let step = process_delivery store first [] in
      let answer_with = λ (r : DeliveryResult) (o : Option Continuation).
        pure {C = StoreCall} (record (answer 200 (result_body r)) { continuation = o }) in
      let inner = λ (r : DeliveryResult). hand_off store started_at_ms r >>= answer_with r in
      let whole = continue step.result step.calls [] inner in
      IsGood-rescue Admitted Leaves whole.result whole.calls []
        (λ _. pure (refusal 500 "worker_failed"))
        (IsGood-continue Admitted (Begun 1) Leaves step.result step.calls [] inner
          (process_delivery-Good store started_at_ms first first [] 0 (inl (refl, refl)) refl)
          (λ r d.
            let off = hand_off store started_at_ms r step.calls in
            IsGood-continue Admitted Left Leaves off.result off.calls step.calls (answer_with r)
              (hand_off-Good r step.calls d)
              (λ o l. IsGood-pure Admitted Leaves (step.calls ++ off.calls) _ l)))
        (λ x. IsGood-pure Admitted Leaves whole.calls _ tt)

  run_rest-Good :
      (fuel : ℕ) (o : Option Continuation) (h : List StoreCall)
      → Left h o
      → Rest Any h (run_rest store fuel o h)
  unfolding run_rest run_background_continuation
  run_rest-Good fuel none h l = IsGood-pure Admitted Any h _ tt
  run_rest-Good fuel (some k) h l =
      let loop = deliver_loop store fuel k k.trigger k.completed_deliveries h in
      IsGood-rescue Admitted Any loop.result loop.calls h (λ _. pure (some stopped))
        (deliver_loop-Good store started_at_ms first l.before k.settings l.settings fuel k refl
          l.started k.trigger k.completed_deliveries h l.reserved l.completed)
        (λ x. IsGood-pure Admitted Any (h ++ loop.calls) _ tt)

  served-Permitted :
      (fuel : ℕ) (s : Step StoreCall Handled)
      → Rest Leaves [] s
      → AllAfter Admitted []
          (continue s.result s.calls [] (λ d. run_rest store fuel d.continuation)).calls
  served-Permitted fuel s g =
      (IsGood-continue Admitted Leaves Any s.result s.calls []
        (λ d. run_rest store fuel d.continuation) g
        (λ d l. run_rest-Good fuel d.continuation s.calls l)).admitted

-- What an invocation may ask of the store: nothing, or what a delivery is permitted that came in the
-- body of a POST.
abbrev pub IsJustified : WorkerStore → Request → List StoreCall → Type 0
IsJustified store request calls =
    (calls ≡ [])
    ⊎ ((body : Value) × (first : DeliveryTrigger) × (request.method ≡ "POST")
        × (request.json ≡ returned body)
        × (parse_delivery_trigger body ≡ some first)
        × AllAfter (IsPermitted store (store.now []) first) [] calls)

module _ (store : WorkerStore) (fuel : ℕ) (request : Request) where
  -- the calls of an invocation, by what handles the request
  abbrev whole : Step StoreCall Handled → List StoreCall
  whole s = (continue s.result s.calls [] (λ d. run_rest store fuel d.continuation)).calls

  serve_trigger-IsJustified :
      (body : Value) (o : Option DeliveryTrigger)
      → request.method ≡ "POST"
      → request.json ≡ returned body
      → parse_delivery_trigger body ≡ o
      → IsJustified store request (whole (serve_trigger store (store.now []) o []))
  unfolding serve_trigger run_rest
  serve_trigger-IsJustified body none m j e = inl refl
  serve_trigger-IsJustified body (some t) m j e = inr (
    body,
    t,
    m,
    j,
    e,
    served-Permitted store (store.now []) t fuel (serve_delivery store (store.now []) t [])
        (serve_delivery-Good store (store.now []) t),
  )

  serve_body-IsJustified :
      (r : Result Value)
      → request.method ≡ "POST"
      → request.json ≡ r
      → IsJustified store request (whole (serve_body store (store.now []) r []))
  unfolding serve_body run_rest
  serve_body-IsJustified (returned body) m j =
      serve_trigger-IsJustified body (parse_delivery_trigger body) m j refl
  serve_body-IsJustified (thrown x) m j = inl refl

  -- An invocation of the projection worker, with the work that it leaves to the background, asks
  -- the store for nothing, or it is a POST whose body holds a delivery: then the first delivery is
  -- that one, each further one was reserved just before, an event is read only for a delivery that
  -- was begun and projected only if it is that delivery's own of Toast, and a delivery is reserved
  -- only while fewer were begun than the settings allow and the time they ask for is left.
  pub invoke-IsJustified : IsJustified store request (invoke store fuel request []).calls
  unfolding invoke handle_request run_rest
  invoke-IsJustified = elim (Bool-cases (request.method === "GET")) [
    | inl g ↦ rw g (inl refl)
    | inr g ↦ elim (Bool-cases (request.method === "POST")) [
      | inl p ↦
          rw (g, p) (serve_body-IsJustified request.json (===→eq request.method "POST" p) refl)
      | inr p ↦ rw (g, p) (inl refl)
    ]
  ]
