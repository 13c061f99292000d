-- ===== src/Workers/Alerts/SameJson/Transitivity.antt =====
-- The comparison of JSON values is transitive.
use mo_xx.Workers.Alerts.SameJson.Reflexivity.{same_number_only, same_number_trans}
use mo_xx.Workers.Alerts.SameJson.{same_items, same_fields, is_same_json_value}
use mo_xx.Shared.{
  refl, ℕ, ◌==◌, length, eq_iff, arith, false, true, inr, subst, ===→eq, inl, ◌===◌, Bool-cases,
  ◌&&◌, &&-eq-true, has, String, true, ◌≡◌,
}
use mo_xx.Js.Value.{
  Items, keys, Fields, strict_eq, field_of, Value, arr, obj, nil, cons, end, field, undefined, null,
  bool, number, str,
}

==-trans : (a b c : ℕ) → (a == b) ≡ true → (b == c) ≡ true → (a == c) ≡ true
==-trans a b c h i = ground arith

-- What the right object has of the left one's properties.
pub same_fields-lookup :
    (fs gs : Fields) (k : String)
    → same_fields fs gs ≡ true
    → has (keys fs) k ≡ true
    → (has (keys gs) k ≡ true) × (is_same_json_value (field_of fs k) (field_of gs k) ≡ true)
unfolding is_same_json_value field_of
same_fields-lookup end gs k s h = cc
same_fields-lookup (field j v fs) gs k s h =
    let (p, q) = &&-eq-true (has (keys gs) j && is_same_json_value v (field_of gs j)) _ s in
    let (here, same) = &&-eq-true (has (keys gs) j) _ p in
    elim (Bool-cases (j === k)) [
      | inl e ↦
          let j_is_k : j ≡ k = ===→eq j k e in
          rw e (
            subst (λ i. has (keys gs) i ≡ true) j_is_k here,
            subst (λ i. is_same_json_value v (field_of gs i) ≡ true) j_is_k same,
          )
      | inr e ↦ rw e (same_fields-lookup fs gs k q (rw e at h))
    ]

mutual
  unfolding is_same_json_value strict_eq

  pub same_trans :
      (l m r : Value)
      → is_same_json_value l m ≡ true
      → is_same_json_value m r ≡ true
      → is_same_json_value l r ≡ true
  same_trans undefined undefined r h i = i
  same_trans undefined m r h i = cc
  same_trans null null r h i = i
  same_trans null m r h i = cc
  same_trans (bool true) (bool true) r h i = i
  same_trans (bool false) (bool false) r h i = i
  same_trans (bool true) m r h i = cc
  same_trans (bool false) m r h i = cc
  same_trans (number n t) (number m u) (number o v) h i = same_number_trans n m o t u v h i
  same_trans (number n t) (number m u) r h i = cc (same_number_only m u r i)
  same_trans (number n t) m r h i = cc (same_number_only n t m h)
  same_trans (str s) (str t) (str u) h i = ground (arith, eq_iff s t, eq_iff t u, eq_iff s u)
  same_trans (str s) (str t) r h i = cc
  same_trans (str s) m r h i = cc
  same_trans (arr xs) (arr ys) (arr zs) h i = items_trans xs ys zs h i
  same_trans (arr xs) (arr ys) r h i = cc
  same_trans (arr xs) m r h i = cc
  same_trans (obj fs) (obj gs) (obj hs) h i =
      let (n, p) = &&-eq-true (length (keys fs) == length (keys gs)) (same_fields fs gs) h in
      let (o, q) = &&-eq-true (length (keys gs) == length (keys hs)) (same_fields gs hs) i in
      let e = ==-trans (length (keys fs)) (length (keys gs)) (length (keys hs)) n o in
      rw e (fields_trans fs gs hs p q)
  same_trans (obj fs) (obj gs) r h i = cc
  same_trans (obj fs) m r h i = cc

  items_trans :
      (xs ys zs : Items)
      → same_items xs ys ≡ true
      → same_items ys zs ≡ true
      → same_items xs zs ≡ true
  items_trans nil nil zs h i = i
  items_trans nil (cons y ys) zs h i = cc
  items_trans (cons x xs) (cons y ys) (cons z zs) h i =
      let (a, b) = &&-eq-true (is_same_json_value x y) (same_items xs ys) h in
      let (c, d) = &&-eq-true (is_same_json_value y z) (same_items ys zs) i in
      rw (same_trans x y z a c) (items_trans xs ys zs b d)
  items_trans (cons x xs) (cons y ys) nil h i = cc
  items_trans (cons x xs) nil zs h i = cc

  fields_trans :
      (fs gs hs : Fields)
      → same_fields fs gs ≡ true
      → same_fields gs hs ≡ true
      → same_fields fs hs ≡ true
  fields_trans end gs hs h i = refl
  fields_trans (field k v fs) gs hs h i =
      let (p, q) =
        &&-eq-true (has (keys gs) k && is_same_json_value v (field_of gs k)) (same_fields fs gs)
          h in
      let (here, same) = &&-eq-true (has (keys gs) k) (is_same_json_value v (field_of gs k)) p in
      let (there, next) = same_fields-lookup gs hs k i here in
      rw (there, same_trans v (field_of gs k) (field_of hs k) same next) (fields_trans fs gs hs q i)
