-- ===== src/Js/Check.antt =====
-- Exceptions, and checks of untrusted values: a check passes, returns null early, or throws.
pub mod Inversion
use Prim.Native.String
use mo_xx.Shared.{String, Bool, true, false, if◌then◌else◌, has}
use mo_xx.Js.Value.{
  prop, Value, undefined, null, bool, number, str, arr, obj, Items, nil, cons, keys,
}

-- A call that returns or throws an error with a message.
pub data Exc {ℓ} (A : Type ℓ) : Type ℓ where
  ok : A → Exc A
  throw : String → Exc A

abbrev pub bind {ℓ κ} : {A : Type ℓ} {B : Type κ} → Exc A → (A → Exc B) → Exc B
bind (ok a) f = f a
bind (throw e) f = throw e

-- `String(v)`. An array joins its items, with nothing for null and undefined; of an object that
-- has a property `toString` of its own, which no parsed text makes a function, it throws.
unfoldable mutual
  pub to_string : Value → Exc String
  to_string undefined = ok "undefined"
  to_string null = ok "null"
  to_string (bool true) = ok "true"
  to_string (bool false) = ok "false"
  to_string (number n t) = ok t
  to_string (str s) = ok s
  to_string (arr xs) = join xs
  to_string (obj fs) = if has (keys fs) "toString" then throw "TypeError" else ok "[object Object]"

  pub join : Items → Exc String
  join nil = ok ""
  join (cons x xs) = bind (join_item x) (λ s. bind (join_rest xs) (λ t. ok (String.◌++◌ s t)))

  pub join_item : Value → Exc String
  join_item undefined = ok ""
  join_item null = ok ""
  join_item (bool true) = ok "true"
  join_item (bool false) = ok "false"
  join_item (number n t) = ok t
  join_item (str s) = ok s
  join_item (arr xs) = join xs
  join_item (obj fs) = if has (keys fs) "toString" then throw "TypeError" else ok "[object Object]"

  pub join_rest : Items → Exc String
  join_rest nil = ok ""
  join_rest (cons x xs) =
      bind (join_item x) (λ s. bind (join_rest xs) (λ t. ok (String.◌++◌ "," (String.◌++◌ s t))))

-- A property of a value that may be null or undefined, of which the read throws.
abbrev pub get : Value → String → Exc Value
get undefined k = throw "TypeError"
get null k = throw "TypeError"
get v k = ok (prop v k)

-- A parser's course: `accept` goes on or returns its value, `reject` returns null, `raise` throws.
pub data Check {ℓ} (A : Type ℓ) : Type ℓ where
  accept : A → Check A
  reject : Check A
  raise : String → Check A

infixl 5 ◌>>◌
unfoldable pub ◌>>◌ {ℓ} : {B : Type ℓ} → Check (Unit {0}) → Check B → Check B
accept _ >> k = k
reject >> k = reject
raise e >> k = raise e

-- `if (!b) return null`
unfoldable pub require : Bool → Check (Unit {0})
require true = accept tt
require false = reject

unfoldable pub require_ok : Exc Bool → Check (Unit {0})
unfolding require
require_ok (ok b) = require b
require_ok (throw e) = raise e

-- A test of `String(v)`, as `pattern.test(v)` and `set.has(String(v))` make it.
unfoldable pub on_text : (String → Bool) → Value → Check (Unit {0})
unfolding require_ok to_string
on_text p v = require_ok (bind (to_string v) (λ s. ok (p s)))

-- A test of a value that must be a text.
abbrev pub text_with : (String → Bool) → Value → Bool
text_with p (str s) = p s
text_with p _ = false

-- A test of a value that may be null.
abbrev pub null_or : (Value → Bool) → Value → Bool
null_or p null = true
null_or p v = p v
