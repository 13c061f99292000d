-- ===== src/Js/Effect.antt =====
-- Calls of the outside world: what an asynchronous function returns or throws, with the calls that
-- it has made, oldest first.
pub mod Calls
use mo_xx.Shared.{String, List, [], ◌∷◌, ◌++◌}
use mo_xx.Js.Check.{Exc, ok, throw}

pub record Effect (C : Type 0) (A : Type 0) : Type 0 where
  pub outcome : Exc A
  pub calls : List C

module _ {C : Type 0} where
  abbrev pub pure : {A : Type 0} → A → Effect C A
  pure a = record { outcome = ok a; calls = [] }

  -- `throw new Error(message)`
  abbrev pub fail : {A : Type 0} → String → Effect C A
  fail e = record { outcome = throw e; calls = [] }

  abbrev pub lift : {A : Type 0} → Exc A → Effect C A
  lift r = record { outcome = r; calls = [] }

  -- one awaited call, and what it gives
  abbrev pub call : {A : Type 0} → C → Exc A → Effect C A
  call c r = record { outcome = r; calls = c ∷ [] }

  abbrev pub continue : {A B : Type 0} → Exc A → List C → (A → Effect C B) → Effect C B
  continue (ok a) cs f = record { outcome = (f a).outcome; calls = cs ++ (f a).calls }
  continue (throw e) cs f = record { outcome = throw e; calls = cs }

  infixl 5 ◌>>=◌ ◌>>◌
  abbrev pub ◌>>=◌ : {A B : Type 0} → Effect C A → (A → Effect C B) → Effect C B
  m >>= f = continue m.outcome m.calls f

  abbrev pub ◌>>◌ : {B : Type 0} → Effect C (Unit {0}) → Effect C B → Effect C B
  m >> k = m >>= λ _. k
