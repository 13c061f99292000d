-- ===== src/Workers/Alerts/SameJson/Reflexivity.antt =====
-- The comparison of JSON values is reflexive; the comparison of numbers is an equivalence.
use mo_xx.Js.Keys.{same_value}
use mo_xx.Workers.Alerts.SameJson.Keys.{Distinct}
use mo_xx.Workers.Alerts.SameJson.{same_fields, same_items, is_same_json_value}
use mo_xx.Shared.{
  Bool, ◌==◌, length, ◌∙◌, eq_iff, arith, inr, inl, refl, eq_refl, Bool-cases, ◌===◌, true, false,
  ◌≡◌, has, String,
}
use mo_xx.Js.Value.{
  nan, infinite, fraction, negative, whole, strict_eq, Items, keys, field_of, Number, Fields, Value,
  arr, obj, nil, cons, end, field, undefined, null, bool, number, str,
}

-- A parsed value: no object has a key twice.
unfoldable mutual
  pub IsJson : Value → Type 0
  IsJson (arr xs) = AreJson xs
  IsJson (obj fs) = Distinct (keys fs) × HoldJson fs
  IsJson v = Unit

  pub AreJson : Items → Type 0
  AreJson nil = Unit
  AreJson (cons x xs) = IsJson x × AreJson xs

  pub HoldJson : Fields → Type 0
  HoldJson end = Unit
  HoldJson (field k v fs) = IsJson v × HoldJson fs

same_number_refl : (n : Number) (t : String) → same_value (number n t) (number n t) ≡ true
unfolding strict_eq
same_number_refl (whole n) t = ground arith
same_number_refl (negative n) t = ground arith
same_number_refl (fraction b n) t = eq_refl t
same_number_refl infinite t = eq_refl t
same_number_refl nan t = refl

pub same_number_sym :
    (n m : Number) (t u : String)
    → same_value (number n t) (number m u) ≡ true
    → same_value (number m u) (number n t) ≡ true
unfolding strict_eq
same_number_sym (whole n) (whole m) t u h = ground arith
same_number_sym (negative n) (negative m) t u h = ground arith
same_number_sym (fraction b n) (fraction c m) t u h = ground (arith, eq_iff t u, eq_iff u t)
same_number_sym infinite infinite t u h = ground (arith, eq_iff t u, eq_iff u t)
same_number_sym nan nan t u h = refl
same_number_sym n m t u h = cc

pub same_number_trans :
    (n m o : Number) (t u v : String)
    → same_value (number n t) (number m u) ≡ true
    → same_value (number m u) (number o v) ≡ true
    → same_value (number n t) (number o v) ≡ true
unfolding strict_eq
same_number_trans (whole n) (whole m) (whole o) t u v h i = ground arith
same_number_trans (negative n) (negative m) (negative o) t u v h i = ground arith
same_number_trans (fraction b n) (fraction c m) (fraction d o) t u v h i =
    ground (arith, eq_iff t u, eq_iff u v, eq_iff t v)
same_number_trans infinite infinite infinite t u v h i =
    ground (arith, eq_iff t u, eq_iff u v, eq_iff t v)
same_number_trans nan nan nan t u v h i = refl
same_number_trans n m o t u v h i = cc

abbrev pub is_number : Value → Bool
is_number (number n t) = true
is_number v = false

-- What is the same as a number is a number.
pub same_number_only :
    (n : Number) (t : String) (v : Value) → same_value (number n t) v ≡ true → is_number v ≡ true
unfolding strict_eq
same_number_only n t (number m u) h = refl
same_number_only nan t v h = cc
same_number_only n t v h = cc

-- the properties `fs` are properties of `gs`
unfoldable pub Within : Fields → Fields → Type 0
Within end gs = Unit
Within (field k v fs) gs = (has (keys gs) k ≡ true) × (field_of gs k ≡ v) × Within fs gs

pub field_of-other :
    (j k : String) (v : Value) (gs : Fields)
    → (j === k) ≡ false
    → field_of (field j v gs) k ≡ field_of gs k
unfolding field_of
field_of-other j k v gs n = rw n refl

Within-more :
    (fs gs : Fields) (j : String) (v : Value)
    → has (keys fs) j ≡ false
    → Within fs gs
    → Within fs (field j v gs)
unfolding Within
Within-more end gs j v n w = tt
Within-more (field k u fs) gs j v n (h, e, w) = elim (Bool-cases (k === j)) [
  | inl s ↦ (let off : true ≡ false = rw s at n in cc)
  | inr s ↦
      let s' : (j === k) ≡ false = ground (arith, eq_iff k j, eq_iff j k) in
      let n' : has (keys fs) j ≡ false = rw s at n in
      (rw s' h, field_of-other j k v gs s' ∙ e, Within-more fs gs j v n' w)
]

pub Within-refl : (fs : Fields) → Distinct (keys fs) → Within fs fs
unfolding Within field_of
Within-refl end d = tt
Within-refl (field k v fs) (n, d) =
    let own : (k === k) ≡ true = eq_refl k in
    (rw own refl, rw own refl, Within-more fs fs k v n (Within-refl fs d))

mutual
  unfolding is_same_json_value strict_eq Within IsJson

  pub same_refl : (v : Value) → IsJson v → is_same_json_value v v ≡ true
  same_refl undefined j = refl
  same_refl null j = refl
  same_refl (bool true) j = refl
  same_refl (bool false) j = refl
  same_refl (number n t) j = same_number_refl n t
  same_refl (str s) j = eq_refl s
  same_refl (arr xs) j = items_refl xs j
  same_refl (obj fs) (d, j) =
      let same_length : (length (keys fs) == length (keys fs)) ≡ true = ground arith in
      rw same_length (fields_refl fs fs j (Within-refl fs d))

  items_refl : (xs : Items) → AreJson xs → same_items xs xs ≡ true
  items_refl nil j = refl
  items_refl (cons x xs) (j, js) = rw (same_refl x j) (items_refl xs js)

  fields_refl : (fs gs : Fields) → HoldJson fs → Within fs gs → same_fields fs gs ≡ true
  fields_refl end gs j w = refl
  fields_refl (field k v fs) gs (j, js) (h, e, w) =
      rw (h, e, same_refl v j) (fields_refl fs gs js w)
