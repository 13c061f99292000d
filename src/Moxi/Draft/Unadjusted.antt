-- ===== src/Moxi/Draft/Unadjusted.antt =====
-- What a draft is that the check leaves as it was: revalidateRecoveredDraft of draft.ts.
use mathlib.Core.List.{[]}
use mo_xx.Shared.{
  String, has, ◌↔◌, ◌||◌, ◌&&◌, not, ltb, false, ==→eq, ===→eq, ◌==◌, ◌===◌, suc, refl, &&-eq-true,
  inr, ap, inl, arith, ◌≤◌, eq_refl, Bool-cases, ◌∷◌, length, true, List, ◌≡◌, Bool,
}
use mo_xx.Moxi.Draft.{
  CartQuantities, PreorderFixture, RecoverableDraft, RecoveredDraft, filter, is_same_record,
  revalidate_recovered_draft,
}

length-filter : {A : Type 0} (f : A → Bool) (l : List A) → length (filter f l) ≤ length l
length-filter f [] = omega arith
length-filter f (x ∷ xs) = elim (Bool-cases (f x)) [
  | inl e ↦ rw e (omega (arith, length-filter f xs))
  | inr e ↦ rw e (omega (arith, length-filter f xs))
]

filter-whole :
    {A : Type 0} (f : A → Bool) (l : List A) → length (filter f l) ≡ length l → filter f l ≡ l
filter-whole f [] h = refl
filter-whole f (x ∷ xs) h = elim (Bool-cases (f x)) [
  | inl e ↦
      let h' = rw e at h in
      let shorter : length (filter f xs) ≡ length xs = omega arith in
      rw e (ap (λ l. x ∷ l) (filter-whole f xs shorter))
  | inr e ↦
      let h' = rw e at h in
      let bound = length-filter f xs in
      let off : suc (length xs) ≤ length xs = omega arith in ground arith
]

is_same_record-eq : (l m : CartQuantities) → is_same_record l m ≡ true → l ≡ m
is_same_record-eq [] [] h = refl
is_same_record-eq [] (y ∷ ys) h = cc
is_same_record-eq (x ∷ xs) [] h = cc
is_same_record-eq ((a, m) ∷ xs) ((b, n) ∷ ys) h =
    let (both, tail) = &&-eq-true (a === b && m == n) (is_same_record xs ys) h in
    let (names, numbers) = &&-eq-true (a === b) (m == n) both in
    let same = ===→eq a b names in
    let equal = ==→eq m n numbers in
    let others = is_same_record-eq xs ys tail in rw (same, equal, others) refl

is_same_record_refl : (l : CartQuantities) → is_same_record l l ≡ true
is_same_record_refl [] = refl
is_same_record_refl (x ∷ xs) = rw (eq_refl x.0, is_same_record_refl xs) (ground arith)

same_text : (s t : String) → s ≡ t → (s === t) ≡ true
same_text s t e = rw e (eq_refl t)

same_length : (l m : List String) → l ≡ m → (length l == length m) ≡ true
same_length l m e = rw e (ground arith)

same_record : (l m : CartQuantities) → l ≡ m → is_same_record l m ≡ true
same_record l m e = rw e (is_same_record_refl m)

module _ (draft : RecoverableDraft) (fixture : PreorderFixture) where
  -- The window, the allergens and the quantities that are not zero, as they were saved.
  pub record IsKept (r : RecoveredDraft) : Type 0 where
    pub window : r.selected_window ≡ draft.selected_window
    pub allergens : r.selected_allergens ≡ draft.selected_allergens
    pub quantities : r.quantities ≡ filter (λ entry. ltb 0 entry.1) draft.quantities

  neither-three :
      (a b c : Bool) → (not a || not b || not c) ≡ false → (a ≡ true) × (b ≡ true) × (c ≡ true)
  neither-three a b c h = ground arith

  none_of_three :
      (a b c : Bool) → a ≡ true → b ≡ true → c ≡ true → (not a || not b || not c) ≡ false
  none_of_three a b c e f g = rw (e, f, g) refl

  -- A saved draft counts as not adjusted exactly if its window and its allergens are as they were
  -- saved and its cart is the list of the saved quantities that are not zero, in the saved order.
  pub revalidate_recovered_draft-adjusted_iff :
      ((revalidate_recovered_draft draft fixture).adjusted ≡ false)
      ↔ IsKept (revalidate_recovered_draft draft fixture)
  unfolding revalidate_recovered_draft
  revalidate_recovered_draft-adjusted_iff = (
    λ h.
        let (w, a, q) = neither-three _ _ _ h in
        record {
          window = ===→eq _ _ w;
          allergens =
              filter-whole (has fixture.allergen_options) draft.selected_allergens (==→eq _ _ a);
          quantities = is_same_record-eq _ _ q;
        },
    λ k.
        none_of_three _ _ _ (same_text _ _ k.window)
          (same_length (filter (has fixture.allergen_options) draft.selected_allergens)
            draft.selected_allergens k.allergens)
          (same_record _ _ k.quantities),
  )
