-- ===== src/Js/Value.antt =====
-- Run-time values, as `unknown` holds them: what `JSON.parse` gives, and `undefined`.
use mo_xx.Shared.{
  suc, ℕ, String, Bool, true, false, ◌&&◌, not, leb, ◌==◌, ◌===◌, if◌then◌else◌, List, [], ◌∷◌, has,
}

-- The value of a number. `negative n` is -(n + 1); the sign of a zero is not kept.
pub data Number : Type 0 where
  whole negative : ℕ → Number
  -- the sign, and the whole part of the magnitude
  fraction : Bool → ℕ → Number
  infinite nan : Number

-- A number comes with the text that `String` gives for it. The values of an object stand under
-- their keys in the order of insertion, and no key stands twice.
mutual
  pub data Value : Type 0 where
    undefined null : Value
    bool : Bool → Value
    number : Number → String → Value
    str : String → Value
    obj : Fields → Value
    arr : Items → Value

  pub data Fields : Type 0 where
    end : Fields
    field : String → Value → Fields → Fields

  pub data Items : Type 0 where
    nil : Items
    cons : Value → Items → Items

-- A property of an object by its key. What is no object has none of the properties that the
-- services read; they read them behind a test for null and undefined.
unfoldable pub field_of : Fields → String → Value
field_of end k = undefined
field_of (field j v fs) k = if j === k then v else field_of fs k

abbrev pub prop : Value → String → Value
prop (obj fs) k = field_of fs k
prop _ k = undefined

-- `Object.keys`
abbrev pub keys : Fields → List String
keys end = []
keys (field k v fs) = k ∷ keys fs

-- `Object.keys(v).some((key) => !allowed.has(key))` is false
abbrev pub only_keys : List String → Fields → Bool
only_keys allowed end = true
only_keys allowed (field k v fs) = has allowed k && only_keys allowed fs

abbrev pub is_truthy : Value → Bool
is_truthy undefined = false
is_truthy null = false
is_truthy (bool b) = b
is_truthy (number (whole n) t) = not (n == 0)
is_truthy (number Number.nan t) = false
is_truthy (number (negative n) t) = true
is_truthy (number (fraction b n) t) = true
is_truthy (number infinite t) = true
is_truthy (str s) = not (s === "")
is_truthy (arr xs) = true
is_truthy (obj fs) = true

-- `Number.isSafeInteger(v) && v >= 1`
abbrev pub max_safe_integer : ℕ
max_safe_integer = 9007199254740991

abbrev pub is_positive_safe : Value → Bool
is_positive_safe (number (whole n) t) = leb n max_safe_integer && leb 1 n
is_positive_safe _ = false

-- `Number.isSafeInteger(v)`
abbrev pub is_safe_integer : Value → Bool
is_safe_integer (number (whole n) t) = leb n max_safe_integer
is_safe_integer (number (negative n) t) = leb (suc n) max_safe_integer
is_safe_integer _ = false

-- `Number.isInteger(v) && v >= 1`
abbrev pub is_positive_integer : Value → Bool
is_positive_integer (number (whole n) t) = leb 1 n
is_positive_integer _ = false

number_eq : Number → Number → String → String → Bool
number_eq (whole a) (whole b) s t = a == b
number_eq (negative a) (negative b) s t = a == b
number_eq (fraction b m) (fraction c n) s t = s === t
number_eq infinite infinite s t = s === t
number_eq _ _ s t = false

-- `===`. Two objects that came to be apart are never the same object.
unfoldable pub strict_eq : Value → Value → Bool
unfolding number_eq
strict_eq undefined undefined = true
strict_eq null null = true
strict_eq (bool a) (bool b) = if a then b else not b
strict_eq (number a s) (number b t) = number_eq a b s t
strict_eq (str s) (str t) = s === t
strict_eq _ _ = false

abbrev pub is_object : Value → Bool
is_object (obj fs) = true
is_object _ = false

abbrev pub is_nil : Items → Bool
is_nil nil = true
is_nil (cons x xs) = false

-- The value that a test has shown to be a text, or a number.
abbrev pub as_text : Value → String
as_text (str s) = s
as_text v = ""

abbrev pub as_number : Value → Number × String
as_number (number n t) = (n, t)
as_number v = (Number.nan, "NaN")
