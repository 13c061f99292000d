-- ===== src/Js/Session/Traces.antt =====
-- What holds of every call of a computation, given the calls that were made before it.
use mathlib.Core.List.{append_assoc, append-nil}
use mo_xx.Shared.{subst, refl, ◌≡◌, [], ◌∷◌, ◌++◌, List}
use mo_xx.Js.Session.{
  finished_by, conclude_with, pure, Step, rescue, continue, thrown, returned, Thrown, Result,
  Session,
}

-- A chain that returns has returned at each step, and has made the calls of each.
pub continue-eq-returned :
    {C A B : Type 0} (r : Result A) (cs h : List C) (f : A → Session C B) {b : B}
    → (continue r cs h f).result ≡ returned b
    → (a : A) × (r ≡ returned a)
      × ((f a (h ++ cs)).result ≡ returned b)
      × ((continue r cs h f).calls ≡ cs ++ (f a (h ++ cs)).calls)
continue-eq-returned (returned a) cs h f e = (a, refl, e, refl)
continue-eq-returned (thrown x) cs h f e = cc

finished_by-returned :
    {A : Type 0} (r : Result A) (e : Result (Unit {0})) (a : A)
    → finished_by r e ≡ returned a
    → (r ≡ returned a) × (e ≡ returned tt)
finished_by-returned r (returned tt) a q = (q, refl)
finished_by-returned r (thrown x) a q = cc

module _ {C : Type 0} (P : List C → C → Type 0) where
  -- each call of `cs`, made after `h` and the calls that stand before it
  abbrev pub AllAfter : List C → List C → Type 0
  AllAfter h [] = Unit
  AllAfter h (c ∷ cs) = P h c × AllAfter (h ++ c ∷ []) cs

  pub AllAfter-append :
      (h cs ds : List C) → AllAfter h cs → AllAfter (h ++ cs) ds → AllAfter h (cs ++ ds)
  AllAfter-append h [] ds p q = rw append-nil at q
  AllAfter-append h (c ∷ cs) ds (p, ps) q =
      (p, AllAfter-append (h ++ c ∷ []) cs ds ps (rw append_assoc q))

  pub AllAfter-continue :
      {A B : Type 0} (r : Result A) (cs h : List C) (f : A → Session C B)
      → AllAfter h cs
      → ((a : A) → r ≡ returned a → AllAfter (h ++ cs) (f a (h ++ cs)).calls)
      → AllAfter h (continue r cs h f).calls
  AllAfter-continue (returned a) cs h f p k =
      AllAfter-append h cs (f a (h ++ cs)).calls p (k a refl)
  AllAfter-continue (thrown e) cs h f p k = p

  pub AllAfter-rescue :
      {A : Type 0} (r : Result A) (cs h : List C) (f : Thrown → Session C A)
      → AllAfter h cs
      → ((e : Thrown) → r ≡ thrown e → AllAfter (h ++ cs) (f e (h ++ cs)).calls)
      → AllAfter h (rescue r cs h f).calls
  AllAfter-rescue (returned a) cs h f p k = p
  AllAfter-rescue (thrown e) cs h f p k = AllAfter-append h cs (f e (h ++ cs)).calls p (k e refl)

  -- The calls are admitted, and what is returned is known together with all calls by then.
  pub record IsGood {A : Type 0} (Q : List C → A → Type 0) (h : List C) (s : Step C A)
      : Type 0 where
    pub admitted : AllAfter h s.calls
    pub known : (a : A) → s.result ≡ returned a → Q (h ++ s.calls) a

  pub IsGood-continue :
      {A B : Type 0} (Q : List C → A → Type 0) (R : List C → B → Type 0) (r : Result A)
      → (cs h : List C) (f : A → Session C B) → IsGood Q h (record { result = r; calls = cs })
      → ((a : A) → Q (h ++ cs) a → IsGood R (h ++ cs) (f a (h ++ cs)))
      → IsGood R h (continue r cs h f)
  IsGood-continue Q R (returned a) cs h f s k =
      let t = k a (s.known a refl) in
      record {
        admitted = AllAfter-append h cs (f a (h ++ cs)).calls s.admitted t.admitted;
        known = λ b e. subst (λ l. R l b) (append_assoc h cs (f a (h ++ cs)).calls) (t.known b e);
      }
  IsGood-continue Q R (thrown e) cs h f s k = record { admitted = s.admitted; known = λ b q. cc }

  pub IsGood-rescue :
      {A : Type 0} (Q : List C → A → Type 0) (r : Result A) (cs h : List C)
      → (f : Thrown → Session C A) → IsGood Q h (record { result = r; calls = cs })
      → ((e : Thrown) → IsGood Q (h ++ cs) (f e (h ++ cs)))
      → IsGood Q h (rescue r cs h f)
  IsGood-rescue Q (returned a) cs h f s k = record { admitted = s.admitted; known = s.known }
  IsGood-rescue Q (thrown e) cs h f s k =
      let t = k e in
      record {
        admitted = AllAfter-append h cs (f e (h ++ cs)).calls s.admitted t.admitted;
        known = λ b q. subst (λ l. Q l b) (append_assoc h cs (f e (h ++ cs)).calls) (t.known b q);
      }

  pub IsGood-pure :
      {A : Type 0} (Q : List C → A → Type 0) (h : List C) (a : A) → Q h a → IsGood Q h (pure a h)
  IsGood-pure Q h a q = record {
    admitted = tt;
    known = λ b e. let same : a ≡ b = cc in subst (λ x. Q (h ++ []) x) same (rw append-nil q);
  }

  pub IsGood-finally :
      {A : Type 0} (Q S : List C → A → Type 0) (R : List C → Unit {0} → Type 0) (r : Result A)
      → (cs h : List C) (k : Session C (Unit {0})) → IsGood Q h (record { result = r; calls = cs })
      → IsGood R (h ++ cs) (k (h ++ cs))
      → ((a : A)
          → Q (h ++ cs) a
          → R ((h ++ cs) ++ (k (h ++ cs)).calls) tt
          → S ((h ++ cs) ++ (k (h ++ cs)).calls) a)
      → IsGood S h (conclude_with r cs h k)
  IsGood-finally Q S R r cs h k s t both = record {
    admitted = AllAfter-append h cs (k (h ++ cs)).calls s.admitted t.admitted;
    known = λ a e.
        let (q, u) = finished_by-returned r (k (h ++ cs)).result a e in
        subst (λ l. S l a) (append_assoc h cs (k (h ++ cs)).calls)
          (both a (s.known a q) (t.known tt u));
  }

pub AllAfter-map :
    {C : Type 0} {P Q : List C → C → Type 0} (h cs : List C)
    → ((l : List C) (c : C) → P l c → Q l c)
    → AllAfter P h cs
    → AllAfter Q h cs
AllAfter-map h [] f p = tt
AllAfter-map h (c ∷ cs) f (p, ps) = (f h c p, AllAfter-map (h ++ c ∷ []) cs f ps)
