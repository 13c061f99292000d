-- ===== src/Workers/Alerts/SameJson/Equivalence.antt =====
-- The comparison of JSON values is an equivalence, which the order of the keys does not change.
use mo_xx.Workers.Alerts.SameJson.Transitivity.{same_fields-lookup, same_trans}
use mo_xx.Workers.Alerts.SameJson.Symmetry.{same_object-keys, same_sym}
use mo_xx.Workers.Alerts.SameJson.Reflexivity.{same_refl, IsJson}
use mo_xx.Workers.Alerts.SameJson.{same_fields, is_same_json_value}
use mo_xx.Shared.{
  sym, ◌∙◌, refl, &&-eq-true, inr, ◌===◌, inl, ◌==◌, Bool-cases, length, has, String, ◌≡◌, false,
  true,
}
use mo_xx.Js.Value.{strict_eq, end, field, undefined, field_of, keys, Fields, Value, obj}

field_of-missing : (fs : Fields) (k : String) → has (keys fs) k ≡ false → field_of fs k ≡ undefined
unfolding field_of
field_of-missing end k h = refl
field_of-missing (field j v fs) k h = elim (Bool-cases (j === k)) [
  | inl e ↦ (let off : true ≡ false = rw e at h in cc)
  | inr e ↦ rw e (field_of-missing fs k (rw e at h))
]

-- Two parsed objects that are the same have the same keys, in whatever order, and the same value
-- under each.
pub same_object-prop :
    (fs gs : Fields) (k : String)
    → IsJson (obj fs)
    → IsJson (obj gs)
    → is_same_json_value (obj fs) (obj gs) ≡ true
    → (has (keys fs) k ≡ has (keys gs) k)
      × (is_same_json_value (field_of fs k) (field_of gs k) ≡ true)
unfolding is_same_json_value IsJson strict_eq
same_object-prop fs gs k (d, i) (e, j) h =
    let (n, p) = &&-eq-true (length (keys fs) == length (keys gs)) (same_fields fs gs) h in
    elim (Bool-cases (has (keys fs) k)) [
      | inl q ↦ let (there, same) = same_fields-lookup fs gs k p q in (q ∙ sym there, same)
      | inr q ↦
          let gone : has (keys gs) k ≡ false = not_there q p n in
          (q ∙ sym gone, rw (field_of-missing fs k q) (rw (field_of-missing gs k gone) refl))
    ]
  where
    not_there :
        has (keys fs) k ≡ false
        → same_fields fs gs ≡ true
        → (length (keys fs) == length (keys gs)) ≡ true
        → has (keys gs) k ≡ false
    not_there q p n = elim (Bool-cases (has (keys gs) k)) [
      | inl r ↦ (let off = same_object-keys fs gs d n p k r in cc)
      | inr r ↦ r
    ]

-- For parsed values, of which the first is the same as the second and the second as the third: the
-- first is the same as itself and as the third, and the second is the same as the first.
pub is_same_json_value-IsEquivalence :
    (l m r : Value)
    → IsJson l
    → IsJson m
    → is_same_json_value l m ≡ true
    → is_same_json_value m r ≡ true
    → (is_same_json_value l l ≡ true)
      × (is_same_json_value m l ≡ true)
      × (is_same_json_value l r ≡ true)
is_same_json_value-IsEquivalence l m r i j h k =
    (same_refl l i, same_sym l m i j h, same_trans l m r h k)
