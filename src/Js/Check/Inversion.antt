-- ===== src/Js/Check/Inversion.antt =====
-- What is known of a value that came through a check, and what a check then gives.
use mo_xx.Shared.{
  not, if◌then◌else◌, ℕ, String, Bool, true, false, arith, ◌≡◌, refl, ◌≤◌, ◌⊎◌, inl, inr, eq_iff,
  eq_refl,
}
use mo_xx.Js.Value.{
  obj, Value, null, number, str, whole, strict_eq, is_positive_safe, is_truthy, prop,
  max_safe_integer,
}
use mo_xx.Js.Check.{
  reject, raise, Exc, ok, throw, bind, Check, accept, to_string, ◌>>◌, require, require_ok, on_text,
  text_with, null_or,
}

-- `String(v)` gives a text of which `p` holds.
abbrev pub HasText : (String → Bool) → Value → Type 0
HasText p v = (s : String) × (to_string v ≡ ok s) × (p s ≡ true)

-- The value is itself a text of which `p` holds.
abbrev pub IsText : (String → Bool) → Value → Type 0
IsText p v = (s : String) × (v ≡ str s) × (p s ≡ true)

-- A whole number from 1 to the largest safe integer.
abbrev pub IsSafeAmount : Value → Type 0
IsSafeAmount v =
    (n : ℕ) × (t : String) × (v ≡ number (whole n) t) × (1 ≤ n) × (n ≤ max_safe_integer)

module _ {A : Type 0} {a : A} where
  pub require-eq-accept :
      (b : Bool) (k : Check A) → (require b >> k) ≡ accept a → (b ≡ true) × (k ≡ accept a)
  unfolding require ◌>>◌
  require-eq-accept true k h = (refl, h)
  require-eq-accept false k h = cc

  pub on_text-eq-accept :
      (p : String → Bool) (v : Value) (k : Check A)
      → (on_text p v >> k) ≡ accept a
      → HasText p v × (k ≡ accept a)
  unfolding on_text ◌>>◌
  on_text-eq-accept p v k h = go (to_string v) refl h
    where
      go :
          (r : Exc String)
          → to_string v ≡ r
          → (require_ok (bind r (λ s. ok (p s))) >> k) ≡ accept a
          → HasText p v × (k ≡ accept a)
      go (ok s) e i = let (t, rest) = require-eq-accept (p s) k i in ((s, e, t), rest)
      go (throw x) e i = cc

pub on_text_pass : (p : String → Bool) (v : Value) → HasText p v → on_text p v ≡ accept tt
unfolding on_text
on_text_pass p v (s, e, h) = rw e (rw h)

pub HasText-str : (p : String → Bool) (s : String) → p s ≡ true → HasText p (str s)
unfolding to_string
HasText-str p s h = (s, refl, h)

pub text_with-eq-true : (p : String → Bool) (v : Value) → text_with p v ≡ true → IsText p v
text_with-eq-true p (str s) h = (s, refl, h)
text_with-eq-true p v h = cc

pub null_or-eq-true :
    (p : String → Bool) (v : Value) → null_or (text_with p) v ≡ true → (v ≡ null) ⊎ IsText p v
null_or-eq-true p null h = inl refl
null_or-eq-true p (str s) h = inr (s, refl, h)
null_or-eq-true p v h = cc

pub strict_eq-str : (v : Value) (s : String) → strict_eq v (str s) ≡ true → v ≡ str s
unfolding strict_eq
strict_eq-str (str t) s h = ground (arith, eq_iff t s)
strict_eq-str v s h = cc

pub is_positive_safe-eq-true : (v : Value) → is_positive_safe v ≡ true → IsSafeAmount v
is_positive_safe-eq-true (number (whole n) t) h = (n, t, refl, ground arith, ground arith)
is_positive_safe-eq-true v h = cc

-- A branch that throws is not the one that returned.
pub if-throw :
    {A : Type 0} (b : Bool) (x : String) (m : Exc A) {a : A}
    → (if b then throw x else m) ≡ ok a
    → (b ≡ false) × (m ≡ ok a)
if-throw true x m h = cc
if-throw false x m h = (refl, h)

pub not-eq-false : (b : Bool) → not b ≡ false → b ≡ true
not-eq-false true h = refl
not-eq-false false h = cc

pub ok-inj : {A : Type 0} {a b : A} → ok a ≡ ok b → a ≡ b
ok-inj h = cc

-- The way back: a check that holds leaves the rest.
module _ {A : Type 0} (k : Check A) where
  pub require-pass : {b : Bool} → b ≡ true → (require b >> k) ≡ k
  unfolding require ◌>>◌
  require-pass h = rw h

  pub on_text-pass : (p : String → Bool) (v : Value) → HasText p v → (on_text p v >> k) ≡ k
  unfolding ◌>>◌
  on_text-pass p v h = rw (on_text_pass p v h)

pub text_with_of_IsText : (p : String → Bool) (v : Value) → IsText p v → text_with p v ≡ true
text_with_of_IsText p v (s, e, h) = rw e h

pub null_or_of_IsText :
    {p : String → Bool} {v : Value} → (v ≡ null) ⊎ IsText p v → null_or (text_with p) v ≡ true
null_or_of_IsText (inl e) = rw e
null_or_of_IsText (inr (s, e, h)) = rw e h

pub strict_eq_of_str : {v : Value} {s : String} → v ≡ str s → strict_eq v (str s) ≡ true
unfolding strict_eq
strict_eq_of_str {s = s} e = rw e (eq_refl s)

pub is_positive_safe_of_IsSafeAmount : {v : Value} → IsSafeAmount v → is_positive_safe v ≡ true
is_positive_safe_of_IsSafeAmount (n, t, e, low, high) = rw e (ground arith)

-- A value of which something is read is an object, and so truthy.
pub is_truthy_of_prop :
    (v : Value) (k : String) {s : String} → prop v k ≡ str s → is_truthy v ≡ true
is_truthy_of_prop (obj fs) k e = refl
is_truthy_of_prop v k e = cc

-- A chain that returns has returned at each step.
pub bind-eq-ok {ℓ κ} :
    {A : Type ℓ} {B : Type κ} (m : Exc A) (f : A → Exc B) {b : B}
    → bind m f ≡ ok b
    → (a : A) × (m ≡ ok a) × (f a ≡ ok b)
bind-eq-ok (ok a) f h = (a, refl, h)
bind-eq-ok (throw e) f h = cc

pub Exc-cases {ℓ} :
    {A : Type ℓ} (m : Exc A) → ((a : A) × (m ≡ ok a)) ⊎ ((e : String) × (m ≡ throw e))
Exc-cases (ok a) = inl (a, refl)
Exc-cases (throw e) = inr (e, refl)

pub >>-eq-accept :
    {A : Type 0} {a : A} (m : Check (Unit {0})) (k : Check A)
    → (m >> k) ≡ accept a
    → (m ≡ accept tt) × (k ≡ accept a)
unfolding ◌>>◌
>>-eq-accept (accept tt) k h = (refl, h)
>>-eq-accept reject k h = cc
>>-eq-accept (raise e) k h = cc

pub require-eq-true : (b : Bool) → require b ≡ accept tt → b ≡ true
unfolding require
require-eq-true true h = refl
require-eq-true false h = cc
