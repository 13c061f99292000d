-- ===== src/Workers/Alerts/SameJson/Symmetry.antt =====
-- The comparison of JSON values is symmetric.
use mo_xx.Workers.Alerts.SameJson.Transitivity.{same_fields-lookup}
use mo_xx.Workers.Alerts.SameJson.Keys.{Distinct, has-converse}
use mo_xx.Workers.Alerts.SameJson.Reflexivity.{
  same_number_only, AreJson, Within-refl, same_number_sym, HoldJson, Within, IsJson,
}
use mo_xx.Workers.Alerts.SameJson.{same_items, same_fields, is_same_json_value}
use mo_xx.Shared.{
  ◌&&◌, ==→eq, ◌==◌, refl, length, inr, ===→eq, subst, inl, &&-eq-true, ◌===◌, eq_iff, arith,
  Bool-cases, has, String, ◌≡◌, false, true,
}
use mo_xx.Js.Value.{
  Items, keys, strict_eq, field_of, Fields, Value, arr, obj, nil, cons, end, field, undefined, null,
  bool, number, str,
}

-- The properties `fs`, each compared with that of `gs` on the left.
Reversed : Fields → Fields → Type 0
Reversed end gs = Unit
Reversed (field k v fs) gs = (is_same_json_value (field_of gs k) v ≡ true) × Reversed fs gs

Reversed-lookup :
    (fs gs : Fields) (k : String)
    → Reversed fs gs
    → has (keys fs) k ≡ true
    → is_same_json_value (field_of gs k) (field_of fs k) ≡ true
unfolding Reversed field_of
Reversed-lookup end gs k r h = cc
Reversed-lookup (field j v fs) gs k (s, r) h = elim (Bool-cases (j === k)) [
  | inl e ↦ rw e (subst (λ i. is_same_json_value (field_of gs i) v ≡ true) (===→eq j k e) s)
  | inr e ↦ rw e (Reversed-lookup fs gs k r (rw e at h))
]

-- Properties of the right object, each of which the left one has, and the same.
same_fields-of-Reversed :
    (fs gs hs : Fields)
    → Reversed fs gs
    → ((k : String) → has (keys gs) k ≡ true → has (keys fs) k ≡ true)
    → Within hs gs
    → same_fields hs fs ≡ true
unfolding Within is_same_json_value
same_fields-of-Reversed fs gs end r f w = refl
same_fields-of-Reversed fs gs (field k v hs) r f (h, e, w) =
    let there = f k h in
    let same : is_same_json_value v (field_of fs k) ≡ true =
      subst (λ x. is_same_json_value x (field_of fs k) ≡ true) e
        (Reversed-lookup fs gs k r there) in
    rw (there, same) (same_fields-of-Reversed fs gs hs r f w)

field_of-IsJson : (fs : Fields) (k : String) → HoldJson fs → IsJson (field_of fs k)
unfolding IsJson field_of
field_of-IsJson end k j = tt
field_of-IsJson (field i v fs) k (j, js) = elim (Bool-cases (i === k)) [
  | inl e ↦ rw e j
  | inr e ↦ rw e (field_of-IsJson fs k js)
]

-- The left of two objects that are the same has every key of the right one.
pub same_object-keys :
    (fs gs : Fields)
    → Distinct (keys fs)
    → (length (keys fs) == length (keys gs)) ≡ true
    → same_fields fs gs ≡ true
    → (k : String) → has (keys gs) k ≡ true
    → has (keys fs) k ≡ true
same_object-keys fs gs d n p =
    has-converse (keys fs) (keys gs) d (λ k q. (same_fields-lookup fs gs k p q).0)
      (==→eq (length (keys fs)) (length (keys gs)) n)

mutual
  unfolding is_same_json_value strict_eq IsJson Reversed

  pub same_sym :
      (l r : Value)
      → IsJson l
      → IsJson r
      → is_same_json_value l r ≡ true
      → is_same_json_value r l ≡ true
  same_sym undefined undefined i j h = refl
  same_sym undefined r i j h = cc
  same_sym null null i j h = refl
  same_sym null r i j h = cc
  same_sym (bool true) (bool true) i j h = refl
  same_sym (bool false) (bool false) i j h = refl
  same_sym (bool true) r i j h = cc
  same_sym (bool false) r i j h = cc
  same_sym (number n t) (number m u) i j h = same_number_sym n m t u h
  same_sym (number n t) r i j h = cc (same_number_only n t r h)
  same_sym (str s) (str t) i j h = ground (arith, eq_iff s t, eq_iff t s)
  same_sym (str s) r i j h = cc
  same_sym (arr xs) (arr ys) i j h = items_sym xs ys i j h
  same_sym (arr xs) r i j h = cc
  same_sym (obj fs) (obj gs) (d, i) (e, j) h =
      let (n, p) = &&-eq-true (length (keys fs) == length (keys gs)) (same_fields fs gs) h in
      let lengths : length (keys fs) ≡ length (keys gs) = ==→eq _ _ n in
      let m : (length (keys gs) == length (keys fs)) ≡ true = ground arith in
      let back =
        has-converse (keys fs) (keys gs) d (λ k q. (same_fields-lookup fs gs k p q).0) lengths in
      rw m (same_fields-of-Reversed fs gs gs (fields-Reversed fs gs i j p) back (Within-refl gs e))
  same_sym (obj fs) r i j h = cc

  items_sym :
      (xs ys : Items) → AreJson xs → AreJson ys → same_items xs ys ≡ true → same_items ys xs ≡ true
  items_sym nil nil i j h = refl
  items_sym nil (cons y ys) i j h = cc
  items_sym (cons x xs) nil i j h = cc
  items_sym (cons x xs) (cons y ys) (i, is) (j, js) h =
      let (a, b) = &&-eq-true (is_same_json_value x y) (same_items xs ys) h in
      rw (same_sym x y i j a) (items_sym xs ys is js b)

  fields-Reversed :
      (fs gs : Fields) → HoldJson fs → HoldJson gs → same_fields fs gs ≡ true → Reversed fs gs
  fields-Reversed end gs i j h = tt
  fields-Reversed (field k v fs) gs (i, is) j h =
      let (p, q) =
        &&-eq-true (has (keys gs) k && is_same_json_value v (field_of gs k)) (same_fields fs gs)
          h in
      let (_, same) = &&-eq-true (has (keys gs) k) (is_same_json_value v (field_of gs k)) p in
      (same_sym v (field_of gs k) i (field_of-IsJson gs k j) same, fields-Reversed fs gs is j q)
