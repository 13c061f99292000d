-- ===== src/Js/Effect/Calls.antt =====
-- What holds of every call that an asynchronous function makes.
use mo_xx.Shared.{◌++◌, refl, if◌then◌else◌, ◌∷◌, false, [], All-append, true, All, ◌≡◌, List, Bool}
use mo_xx.Js.Check.{throw, ok, Exc}
use mo_xx.Js.Effect.{Effect, continue, call, ◌>>=◌, lift}

module _ {C : Type 0} (P : C → Type 0) where
  pub All-continue :
      {A B : Type 0} (r : Exc A) (cs : List C) (f : A → Effect C B)
      → All P cs
      → ((a : A) → r ≡ ok a → All P (f a).calls)
      → All P (continue r cs f).calls
  All-continue (ok a) cs f h k = All-append P cs (f a).calls h (k a refl)
  All-continue (throw e) cs f h k = h

  -- A call and what follows it.
  pub All-call :
      {A B : Type 0} (c : C) (r : Exc A) (f : A → Effect C B)
      → P c
      → ((a : A) → r ≡ ok a → All P (f a).calls)
      → All P (call c r >>= f).calls
  All-call c r f p k = All-continue r (c ∷ []) f (p, tt) k

  -- A step that may throw, with no call of its own.
  pub All-lift :
      {A B : Type 0} (r : Exc A) (f : A → Effect C B)
      → ((a : A) → r ≡ ok a → All P (f a).calls)
      → All P (lift r >>= f).calls
  All-lift r f k = All-continue r [] f tt k

  pub All-if :
      {A : Type 0} (b : Bool) (m n : Effect C A)
      → (b ≡ true → All P m.calls)
      → (b ≡ false → All P n.calls)
      → All P (if b then m else n).calls
  All-if true m n h k = h refl
  All-if false m n h k = k refl

-- A chain that returns has returned at each step, and has made the calls of each.
pub continue-eq-ok :
    {C A B : Type 0} (r : Exc A) (cs : List C) (f : A → Effect C B) {b : B}
    → (continue r cs f).outcome ≡ ok b
    → (a : A) × (r ≡ ok a) × ((f a).outcome ≡ ok b) × ((continue r cs f).calls ≡ cs ++ (f a).calls)
continue-eq-ok (ok a) cs f h = (a, refl, h, refl)
continue-eq-ok (throw e) cs f h = cc
