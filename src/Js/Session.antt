-- ===== src/Js/Session.antt =====
-- Asynchronous functions whose calls are answered by a world that changes: what a call gives may
-- depend on every call made before it. The calls stand oldest first.
pub mod Traces
use mo_xx.Shared.{String, Bool, List, [], ◌∷◌, ◌++◌}

-- What is thrown: an `Error`, by its name and message, or something else.
pub data Thrown : Type 0 where
  error : String → String → Thrown
  other : Thrown

pub data Result (A : Type 0) : Type 0 where
  returned : A → Result A
  thrown : Thrown → Result A

pub record Step (C : Type 0) (A : Type 0) : Type 0 where
  pub result : Result A
  pub calls : List C

-- A computation, given the calls that were made before it.
abbrev pub Session : Type 0 → Type 0 → Type 0
Session C A = List C → Step C A

-- The answer of a dependency, given the calls before this one.
abbrev pub Answer : Type 0 → Type 0 → Type 0
Answer C A = List C → Result A

-- what a `finally` block leaves of what stands before it
abbrev pub finished_by : {A : Type 0} → Result A → Result (Unit {0}) → Result A
finished_by r (returned _) = r
finished_by r (thrown e) = thrown e

module _ {C : Type 0} where
  abbrev pub pure : {A : Type 0} → A → Session C A
  pure a h = record { result = returned a; calls = [] }

  abbrev pub raise : {A : Type 0} → Thrown → Session C A
  raise e h = record { result = thrown e; calls = [] }

  -- `throw new Error(message)`
  abbrev pub fail : {A : Type 0} → String → Session C A
  fail message = raise (error "Error" message)

  -- one awaited call
  abbrev pub call : {A : Type 0} → C → Answer C A → Session C A
  call c answer h = record { result = answer h; calls = c ∷ [] }

  -- what follows a computation that has returned, or that has thrown, after the calls `h`
  abbrev pub continue : {A B : Type 0} → Result A → List C → List C → (A → Session C B) → Step C B
  continue (returned a) cs h f = record {
    result = (f a (h ++ cs)).result;
    calls = cs ++ (f a (h ++ cs)).calls;
  }
  continue (thrown e) cs h f = record { result = thrown e; calls = cs }

  abbrev pub rescue : {A : Type 0} → Result A → List C → List C → (Thrown → Session C A) → Step C A
  rescue (returned a) cs h f = record { result = returned a; calls = cs }
  rescue (thrown e) cs h f = record {
    result = (f e (h ++ cs)).result;
    calls = cs ++ (f e (h ++ cs)).calls;
  }

  infixl 5 ◌>>=◌
  abbrev pub ◌>>=◌ : {A B : Type 0} → Session C A → (A → Session C B) → Session C B
  (m >>= f) h = continue (m h).result (m h).calls h f

  -- `try { m } catch (error) { f }`
  abbrev pub catch : {A : Type 0} → Session C A → (Thrown → Session C A) → Session C A
  catch m f h = rescue (m h).result (m h).calls h f

  -- `try { m } finally { k }`
  abbrev pub conclude_with :
      {A : Type 0} → Result A → List C → List C → Session C (Unit {0}) → Step C A
  conclude_with r cs h k = record {
    result = finished_by r (k (h ++ cs)).result;
    calls = cs ++ (k (h ++ cs)).calls;
  }

  abbrev pub finally : {A : Type 0} → Session C A → Session C (Unit {0}) → Session C A
  finally m k h = conclude_with (m h).result (m h).calls h k

  -- a step that may throw, with no call of its own
  abbrev pub given : {A B : Type 0} → Result A → (A → Session C B) → Session C B
  given (returned a) f = f a
  given (thrown e) f = raise e

  -- goes on with the present moment, of a clock that the calls move on
  abbrev pub at_time : {A B : Type 0} → (List C → A) → (A → Session C B) → Session C B
  at_time clock f h = f (clock h) h
