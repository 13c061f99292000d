-- ===== src/Workers/Projection/Endings.antt =====
-- That the loop of the worker comes to an end, with fuel for the deliveries that are left.
use Prim.Native.Nat.{zero}
use mo_xx.Workers.Delivery.{DeliveryTrigger}
use mo_xx.Workers.Projection.Rounds.{can_continue_worker-max, Again}
use mo_xx.Workers.Projection.Background.{
  is_projected, stopped, take_next, reserve_next, Ending, run_background_continuation, deliver_loop,
  after_delivery, Continuation,
}
use mo_xx.Workers.Projection.{
  reserve_next_delivery, can_continue_worker, process_delivery, DeliveryResult, StoreCall,
  WorkerStore,
}
use mo_xx.Shared.{
  inr, [], ◌∷◌, inl, refl, Bool-cases, ◌+◌, some, none, ◌≡◌, ◌≢◌, ◌<◌, ◌++◌, suc, ◌-◌, arith, ℕ,
  Option, List,
}
use mo_xx.Js.Session.{thrown, rescue, returned, pure, continue, Session, Result}

module _ (store : WorkerStore) (k : Continuation) where
  -- the rounds have an ending, or an exception
  abbrev IsEnding : ℕ → Again → Type 0
  IsEnding fuel again =
      (t : DeliveryTrigger) (completed : ℕ) (h : List StoreCall)
      → k.settings.max_deliveries - completed < fuel
      → (again t completed h).result ≢ returned none

  continue-ending :
      {A : Type 0} (r : Result A) (cs h : List StoreCall)
      (f : A → Session StoreCall (Option Ending))
      → ((a : A) → (f a (h ++ cs)).result ≢ returned none)
      → (continue r cs h f).result ≢ returned none
  continue-ending (returned a) cs h f e = e a
  continue-ending (thrown x) cs h f e = λ q. cc

  take_next-ending :
      (again : Again) (fuel completed : ℕ) (o : Option DeliveryTrigger) (h : List StoreCall)
      → IsEnding fuel again
      → k.settings.max_deliveries - completed < fuel
      → (take_next store again completed o h).result ≢ returned none
  take_next-ending again fuel completed none h e p = λ q. cc
  take_next-ending again fuel completed (some t) h e p = e t completed h p

  after_delivery-ending :
      (again : Again) (fuel completed : ℕ) (result : DeliveryResult) (h : List StoreCall)
      → IsEnding fuel again
      → (completed < k.settings.max_deliveries → k.settings.max_deliveries - completed < fuel)
      → (after_delivery store again k completed result h).result ≢ returned none
  unfolding after_delivery reserve_next
  after_delivery-ending again fuel completed result h e left =
      let go = can_continue_worker k.settings k.started_at_ms (store.now h) completed in
      elim (Bool-cases (is_projected result)) [
        | inl p ↦ elim (Bool-cases go) [
          | inl g ↦ rw p (
              rw g (
                continue-ending (store.next_delivery h) (reserve_next_delivery ∷ []) h
                  (take_next store again completed)
                  (λ o.
                    take_next-ending again fuel completed o (h ++ reserve_next_delivery ∷ []) e (
                      left (
                        can_continue_worker-max store k k.started_at_ms (store.now h) completed
                          g)))))
          | inr g ↦ rw p (rw g (λ q. cc))
        ]
        | inr p ↦ rw p (λ q. cc)
      ]

  deliver_loop-IsEnding : (fuel : ℕ) → IsEnding fuel (deliver_loop store fuel k)
  unfolding deliver_loop
  deliver_loop-IsEnding zero t completed h p = absurd (omega arith)
  deliver_loop-IsEnding (suc fuel) t completed h p =
      let s = process_delivery store t h in
      continue-ending s.result s.calls h
        (after_delivery store (deliver_loop store fuel k) k (completed + 1))
        (λ r.
          after_delivery-ending (deliver_loop store fuel k) fuel (completed + 1) r (h ++ s.calls)
            (deliver_loop-IsEnding fuel) (λ m. omega arith))

  rescue-ending :
      (r : Result (Option Ending)) (cs h : List StoreCall)
      → r ≢ returned none
      → (e : Ending) × ((rescue r cs h (λ _. pure (some stopped))).result ≡ returned (some e))
  rescue-ending (returned none) cs h e = absurd (e refl)
  rescue-ending (returned (some x)) cs h e = (x, refl)
  rescue-ending (thrown x) cs h e = (stopped, refl)

  -- With fuel for more rounds than the settings leave deliveries, the work in the background comes
  -- to an ending, and throws nothing.
  pub run_background_continuation-ends :
      (fuel : ℕ) (h : List StoreCall)
      → k.settings.max_deliveries - k.completed_deliveries < fuel
      → (e : Ending) × ((run_background_continuation store fuel k h).result ≡ returned (some e))
  unfolding run_background_continuation
  run_background_continuation-ends fuel h p =
      let s = deliver_loop store fuel k k.trigger k.completed_deliveries h in
      rescue-ending s.result s.calls h
        (deliver_loop-IsEnding fuel k.trigger k.completed_deliveries h p)
