-- ===== src/Workers/Projection/Rounds.antt =====
-- How many deliveries the loop of the worker takes, and that it comes to an end.
use mathlib.Core.Option.{none}
use Prim.Native.Nat.{zero}
use mathlib.Core.Bool.{false}
use mathlib.Core.List.{[]}
use mo_xx.Workers.Delivery.{DeliveryTrigger}
use mo_xx.Workers.Projection.Background.{
  is_projected, stopped, reserve_next, take_next, run_background_continuation, after_delivery,
  Ending, deliver_loop, Continuation,
}
use mo_xx.Workers.Projection.{
  DeliveryResult, can_continue_worker, reserve_next_delivery, classify_projection_outcome,
  is_source_event, read_worker_settings, SourceEvent, project_and_acknowledge, fail_delivery,
  read_source_event, project_event, process_delivery, fail_with, conclude, begun_delivery,
  WorkerStore, StoreCall, begin_delivery,
}
use mo_xx.Shared.{
  true, ◌-◌, inr, inl, Bool-cases, ◌∙◌, suc, some, refl, arith, [], String, ◌<◌, ◌+◌, Option, Bool,
  ◌≤◌, ◌≡◌, ◌∷◌, ◌++◌, ℕ, List,
}
use mo_xx.Js.Session.{thrown, returned, rescue, Thrown, pure, continue, Session, Result}

abbrev starts : StoreCall → ℕ
starts (begin_delivery t) = 1
starts (read_source_event t) = 0
starts (project_and_acknowledge t) = 0
starts (fail_delivery t text) = 0
starts read_worker_settings = 0
starts reserve_next_delivery = 0

-- the number of deliveries that are begun
abbrev pub deliveries : List StoreCall → ℕ
deliveries [] = 0
deliveries (c ∷ cs) = starts c + deliveries cs

pub deliveries-append :
    (cs ds : List StoreCall) → deliveries (cs ++ ds) ≡ deliveries cs + deliveries ds
deliveries-append [] ds = omega arith
deliveries-append (c ∷ cs) ds = omega (arith, deliveries-append cs ds)

deliveries-continue :
    {A B : Type 0} (r : Result A) (cs h : List StoreCall) (f : A → Session StoreCall B)
    → (n total : ℕ) → ((a : A) → r ≡ returned a → deliveries (f a (h ++ cs)).calls ≤ n)
    → deliveries cs + n ≤ total
    → deliveries (continue r cs h f).calls ≤ total
deliveries-continue (returned a) cs h f n total k p =
    omega (arith, k a refl, deliveries-append cs (f a (h ++ cs)).calls)
deliveries-continue (thrown e) cs h f n total k p = omega arith

deliveries-rescue :
    {A : Type 0} (r : Result A) (cs h : List StoreCall) (f : Thrown → Session StoreCall A)
    → ((e : Thrown) → deliveries (f e (h ++ cs)).calls ≤ 0)
    → deliveries (rescue r cs h f).calls ≡ deliveries cs
deliveries-rescue (returned a) cs h f k = refl
deliveries-rescue (thrown e) cs h f k =
    omega (arith, k e, deliveries-append cs (f e (h ++ cs)).calls)

-- what the loop leaves to its next rounds
abbrev pub Again : Type 0
Again = DeliveryTrigger → ℕ → Session StoreCall (Option Ending)

module _ (store : WorkerStore) where
  fail_with-deliveries :
      (t : DeliveryTrigger) (e : Thrown) (h : List StoreCall)
      → deliveries (fail_with store t e h).calls ≤ 0
  unfolding fail_with
  fail_with-deliveries t e h =
      deliveries-continue (store.failure_of t _ h) (fail_delivery t _ ∷ []) h _ 0 0
        (λ f q. omega arith) (omega arith)

  conclude-deliveries :
      (t : DeliveryTrigger) (o : Option String) (h : List StoreCall)
      → deliveries (conclude store t o h).calls ≤ 0
  unfolding conclude
  conclude-deliveries t none h = omega arith
  conclude-deliveries t (some o) h = omega arith

  project_event-deliveries :
      (t : DeliveryTrigger) (o : Option SourceEvent) (h : List StoreCall)
      → deliveries (project_event store t o h).calls ≤ 0
  unfolding project_event
  project_event-deliveries t none h = omega arith
  project_event-deliveries t (some ev) h = elim (Bool-cases (is_source_event t ev)) [
    | inl p ↦ rw p (
        deliveries-continue (store.projection_of t h) (project_and_acknowledge t ∷ []) h _ 0 0
          (λ v q.
            conclude-deliveries t (classify_projection_outcome v)
              (h ++ project_and_acknowledge t ∷ []))
          (omega arith))
    | inr p ↦ rw p (omega arith)
  ]

  begun_delivery-deliveries :
      (t : DeliveryTrigger) (b : Bool) (h : List StoreCall)
      → deliveries (begun_delivery store t b h).calls ≤ 0
  unfolding begun_delivery
  begun_delivery-deliveries t false h = omega arith
  begun_delivery-deliveries t true h =
      deliveries-continue (store.source_event_of t h) (read_source_event t ∷ []) h
        (project_event store t) 0 0
        (λ o q. project_event-deliveries t o (h ++ read_source_event t ∷ [])) (omega arith)

  -- A delivery is begun once.
  pub process_delivery-deliveries :
      (t : DeliveryTrigger) (h : List StoreCall) → deliveries (process_delivery store t h).calls ≡ 1
  unfolding process_delivery
  process_delivery-deliveries t h =
      let r = store.begin_delivery_of t h in
      let s = continue r (begin_delivery t ∷ []) h (begun_delivery store t) in
      let rescued =
        deliveries-rescue s.result s.calls h (fail_with store t)
          (λ e. fail_with-deliveries t e (h ++ s.calls)) in
      rescued ∙ begun r
    where
      begun :
          (r : Result Bool)
          → deliveries (continue r (begin_delivery t ∷ []) h (begun_delivery store t)).calls ≡ 1
      begun (returned b) = omega (arith, begun_delivery-deliveries t b (h ++ begin_delivery t ∷ []))
      begun (thrown e) = refl

  module _ (k : Continuation) where
    -- the rounds keep within what is left of the settings' number
    abbrev IsBounded : Again → Type 0
    IsBounded again =
        (t : DeliveryTrigger) (completed : ℕ) (h : List StoreCall)
        → completed < k.settings.max_deliveries
        → deliveries (again t completed h).calls ≤ k.settings.max_deliveries - completed

    take_next-bounded :
        (again : Again) (completed : ℕ) (o : Option DeliveryTrigger) (h : List StoreCall)
        → IsBounded again
        → completed < k.settings.max_deliveries
        → deliveries (take_next store again completed o h).calls
          ≤ k.settings.max_deliveries - completed
    take_next-bounded again completed none h b p = omega arith
    take_next-bounded again completed (some t) h b p = b t completed h p

    pub can_continue_worker-max :
        (started now completed : ℕ)
        → can_continue_worker k.settings started now completed ≡ true
        → completed < k.settings.max_deliveries
    unfolding can_continue_worker
    can_continue_worker-max started now completed e = ground arith

    after_delivery-bounded :
        (again : Again) (completed : ℕ) (result : DeliveryResult) (h : List StoreCall)
        → IsBounded again
        → deliveries (after_delivery store again k completed result h).calls
          ≤ k.settings.max_deliveries - completed
    unfolding after_delivery reserve_next
    after_delivery-bounded again completed result h b = elim (Bool-cases (is_projected result)) [
      | inl p ↦
          let go = can_continue_worker k.settings k.started_at_ms (store.now h) completed in
          elim (Bool-cases go) [
            | inl q ↦ rw p (
                rw q (
                  deliveries-continue (store.next_delivery h) (reserve_next_delivery ∷ []) h
                    (take_next store again completed) (k.settings.max_deliveries - completed)
                    (k.settings.max_deliveries - completed)
                    (λ o r.
                      take_next-bounded again completed o (h ++ reserve_next_delivery ∷ []) b
                        (can_continue_worker-max k.started_at_ms (store.now h) completed q))
                    (omega arith)))
            | inr q ↦ rw p (rw q (omega arith))
          ]
      | inr p ↦ rw p (omega arith)
    ]

    deliver_loop-IsBounded : (fuel : ℕ) → IsBounded (deliver_loop store fuel k)
    unfolding deliver_loop
    deliver_loop-IsBounded zero t completed h p = omega arith
    deliver_loop-IsBounded (suc fuel) t completed h p =
        let s = process_delivery store t h in
        deliveries-continue s.result s.calls h
          (after_delivery store (deliver_loop store fuel k) k (completed + 1))
          (k.settings.max_deliveries - (completed + 1)) (k.settings.max_deliveries - completed)
          (λ r q.
            after_delivery-bounded (deliver_loop store fuel k) (completed + 1) r (h ++ s.calls)
              (deliver_loop-IsBounded fuel))
          (omega (arith, process_delivery-deliveries t h))

    -- If fewer deliveries were completed than the settings allow, the work in the background
    -- begins no more than are left of them.
    pub run_background_continuation-bounded :
        (fuel : ℕ) (h : List StoreCall)
        → k.completed_deliveries < k.settings.max_deliveries
        → k.completed_deliveries + deliveries (run_background_continuation store fuel k h).calls
          ≤ k.settings.max_deliveries
    unfolding run_background_continuation
    run_background_continuation-bounded fuel h p =
        let s = deliver_loop store fuel k k.trigger k.completed_deliveries h in
        omega (
          arith,
          deliver_loop-IsBounded fuel k.trigger k.completed_deliveries h p,
          deliveries-rescue s.result s.calls h (λ _. pure (some stopped)) (λ e. omega arith),
        )
