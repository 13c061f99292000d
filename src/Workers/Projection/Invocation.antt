-- ===== src/Workers/Projection/Invocation.antt =====
-- An invocation of the worker, the work that it leaves to the background included.
use Prim.Native.Nat.{zero}
use mathlib.Core.Option.{none}
use mo_xx.Workers.Projection.Background.{
  is_projected, take_next, reserve_next, deliver_loop, after_delivery, Ending, Continuation,
}
use mo_xx.Workers.Projection.Permission.{
  can_continue_worker-IsTimely, process_delivery-Permitted, IsPermitted,
}
use mo_xx.Workers.Projection.Rounds.{process_delivery-deliveries, deliveries-append, deliveries}
use mo_xx.Workers.Delivery.{DeliveryTrigger}
use mo_xx.Workers.Projection.{
  reserve_next_delivery, DeliveryResult, process_delivery, can_continue_worker, begin_delivery,
  WorkerSettings, WorkerStore, StoreCall,
}
use mo_xx.Shared.{
  ap, ◌∙◌, inr, inl, [], ◌∷◌, refl, Bool-cases, ◌++◌, arith, true, suc, ◌+◌, some, ◌≡◌, Option, ℕ,
  List,
}
use mo_xx.Js.Session.{returned, Session, Step}
use mo_xx.Js.Session.Traces.{IsGood, IsGood-continue}

-- nothing is known of what is returned
abbrev pub Any : {A : Type 0} → List StoreCall → A → Type 0
Any h a = Unit {0}

-- one delivery more than `n` has been begun
abbrev pub Begun : {A : Type 0} → ℕ → List StoreCall → A → Type 0
Begun n h a = deliveries h ≡ n

module _ (store : WorkerStore) (started_at_ms : ℕ) (first : DeliveryTrigger) where
  abbrev pub Permitted : List StoreCall → StoreCall → Type 0
  Permitted = IsPermitted store started_at_ms first

  abbrev pub Good :
      {A : Type 0} → (List StoreCall → A → Type 0) → List StoreCall → Step StoreCall A → Type 0
  Good Q h s = IsGood Permitted Q h s

  pub process_delivery-Good :
      (t : DeliveryTrigger) (h : List StoreCall) (n : ℕ)
      → Permitted h (begin_delivery t)
      → deliveries h ≡ n
      → Good (Begun (n + 1)) h (process_delivery store t h)
  process_delivery-Good t h n p d = record {
    admitted = process_delivery-Permitted store started_at_ms first t h p;
    known = λ r e. omega (
      arith,
      deliveries-append h (process_delivery store t h).calls,
      process_delivery-deliveries store t h,
    );
  }

  -- a delivery that has just been reserved
  abbrev pub Reserved : ℕ → List StoreCall → Option DeliveryTrigger → Type 0
  Reserved n h o =
      (deliveries h ≡ n) × ((t : DeliveryTrigger) → o ≡ some t → Permitted h (begin_delivery t))

  pub reserve_next_delivery-Good :
      (h g : List StoreCall) (s : WorkerSettings) (n : ℕ)
      → store.settings g ≡ returned s
      → deliveries h ≡ n
      → can_continue_worker s started_at_ms (store.now h) n ≡ true
      → Good
          (Reserved n)
          h
          (record { result = store.next_delivery h; calls = reserve_next_delivery ∷ [] })
  reserve_next_delivery-Good h g s n e d c = record {
    admitted = ((s, g, e, can_continue_worker-IsTimely store started_at_ms first s h n d c), tt);
    known = λ o q. (
      omega (arith, deliveries-append h (reserve_next_delivery ∷ [])),
      λ t i. inr (h, refl, q ∙ ap returned i),
    );
  }

  module _ (g : List StoreCall) (s : WorkerSettings) (e : store.settings g ≡ returned s) where
    -- the rounds that follow, after as many deliveries as they are told
    abbrev pub IsAgain : (DeliveryTrigger → ℕ → Session StoreCall (Option Ending)) → Type 0
    IsAgain again =
        (t : DeliveryTrigger) (n : ℕ) (h : List StoreCall)
        → Permitted h (begin_delivery t)
        → deliveries h ≡ n
        → Good Any h (again t n h)

    take_next-Good :
        (again : DeliveryTrigger → ℕ → Session StoreCall (Option Ending)) (n : ℕ)
        → (o : Option DeliveryTrigger) (h : List StoreCall) → IsAgain again
        → Reserved n h o
        → Good Any h (take_next store again n o h)
    take_next-Good again n none h a (d, p) = record { admitted = tt; known = λ _ _. tt }
    take_next-Good again n (some t) h a (d, p) = a t n h (p t refl) d

    after_delivery-Good :
        (again : DeliveryTrigger → ℕ → Session StoreCall (Option Ending)) (k : Continuation) (n : ℕ)
        → (result : DeliveryResult) (h : List StoreCall) → IsAgain again
        → k.settings ≡ s
        → k.started_at_ms ≡ started_at_ms
        → deliveries h ≡ n
        → Good Any h (after_delivery store again k n result h)
    unfolding after_delivery reserve_next
    after_delivery-Good again k n result h a ks kt d =
        let go = can_continue_worker s started_at_ms (store.now h) n in
        elim (Bool-cases (is_projected result)) [
          | inl p ↦ elim (Bool-cases go) [
            | inl c ↦
                rw (p, ks, kt, c)
                  (IsGood-continue Permitted (Reserved n) Any (store.next_delivery h)
                    (reserve_next_delivery ∷ []) h (take_next store again n)
                    (reserve_next_delivery-Good h g s n e d c)
                    (λ o r. take_next-Good again n o (h ++ reserve_next_delivery ∷ []) a r))
            | inr c ↦ rw (p, ks, kt, c) (record { admitted = tt; known = λ _ _. tt })
          ]
          | inr p ↦ rw p (record { admitted = tt; known = λ _ _. tt })
        ]

    pub deliver_loop-Good :
        (fuel : ℕ) (k : Continuation)
        → k.settings ≡ s
        → k.started_at_ms ≡ started_at_ms
        → IsAgain (deliver_loop store fuel k)
    unfolding deliver_loop
    deliver_loop-Good zero k ks kt t n h p d = record { admitted = tt; known = λ _ _. tt }
    deliver_loop-Good (suc fuel) k ks kt t n h p d =
        let step = process_delivery store t h in
        IsGood-continue Permitted (Begun (n + 1)) Any step.result step.calls h
          (after_delivery store (deliver_loop store fuel k) k (n + 1))
          (process_delivery-Good t h n p d)
          (λ r q.
            after_delivery-Good (deliver_loop store fuel k) k (n + 1) r (h ++ step.calls)
              (deliver_loop-Good fuel k ks kt) ks kt q)
