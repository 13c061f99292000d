-- ===== src/Moxi/Draft/Recovery.antt =====
-- What a draft has that was checked against the menu: revalidateRecoveredDraft of draft.ts.
use mo_xx.Moxi.Checkout.{lookup_or}
use mo_xx.Shared.{
  ===→eq, All-map, true, not, ◌&&◌, refl, length, arith, min, ltb, inr, ◌⊎◌, ◌===◌, inl, [],
  Bool-cases, ◌≤◌, ◌∷◌, has, false, ◌≡◌, All, ◌<◌, ℕ, any, String, List, Bool,
}
use mathlib.Core.List.{mem-cons_of_mem, mem-cons_self, Mem}
use mo_xx.Moxi.Draft.{
  RecoveredDraft, PreorderFixture, revalidate_recovered_draft, is_selectable, choose_window,
  RecoverableDraft, filter, FulfillmentWindow, unverified, is_verified, AllergenStatus,
  CartQuantities, MenuProduct, assign, maximum, take_product, take_products, verified,
}

-- An entry that `wanted` has under the allergens `selected`: a product of the menu with none of
-- them, of which this is no more than was wanted and than is sold.
pub record IsOffered (products : List MenuProduct) (selected : List String)
    (wanted : CartQuantities) (entry : String × ℕ) : Type 0 where
  pub product : MenuProduct
  pub listed : Mem product products
  pub named : product.id ≡ entry.0
  pub positive : 0 < entry.1
  pub sold : entry.1 ≤ product.maximum_quantity
  pub wanted_too : entry.1 ≤ lookup_or wanted entry.0 0
  pub free : All (λ a. has selected a ≡ false) product.allergens
  pub evident : (selected ≡ []) ⊎ (product.allergen_status ≡ verified)

any-eq-false :
    {A : Type 0} (f : A → Bool) (xs : List A) → any f xs ≡ false → All (λ x. f x ≡ false) xs
any-eq-false f [] h = tt
any-eq-false f (x ∷ xs) h = elim (Bool-cases (f x)) [
  | inl e ↦ (let h' = rw e at h in cc)
  | inr e ↦ (e, any-eq-false f xs (rw e at h))
]

assign-All :
    (P : String × ℕ → Type 0) (l : CartQuantities) (k : String) (n : ℕ)
    → All P l
    → P (k, n)
    → All P (assign l k n)
assign-All P [] k n h p = (p, tt)
assign-All P (x ∷ xs) k n (q, h) p = elim (Bool-cases (x.0 === k)) [
  | inl e ↦ rw e (p, h)
  | inr e ↦ rw e (q, assign-All P xs k n h p)
]

evidence-known :
    (selected : List String) (s : AllergenStatus)
    → (ltb 0 (length selected) && not (is_verified s)) ≡ false
    → (selected ≡ []) ⊎ (s ≡ verified)
evidence-known [] s h = inl refl
evidence-known (x ∷ xs) verified h = inr refl
evidence-known (x ∷ xs) unverified h = ground arith

-- A product of which some may be taken has its evidence and none of the allergens.
maximum-positive :
    (selected : List String) (p : MenuProduct)
    → 0 < maximum selected p
    → (maximum selected p ≡ p.maximum_quantity)
      × (any (has selected) p.allergens ≡ false)
      × ((selected ≡ []) ⊎ (p.allergen_status ≡ verified))
unfolding maximum
maximum-positive selected p h =
    elim (Bool-cases (ltb 0 (length selected) && not (is_verified p.allergen_status))) [
      | inl e ↦ (let h' = rw e at h in ground arith)
      | inr e ↦ elim (Bool-cases (any (has selected) p.allergens)) [
        | inl c ↦ (let h' = rw (e, c) at h in ground arith)
        | inr c ↦ (rw (e, c) refl, c, evidence-known selected p.allergen_status e)
      ]
    ]

module _ (products : List MenuProduct) (selected : List String) (wanted : CartQuantities) where
  abbrev Offered : CartQuantities → Type 0
  Offered l = All (IsOffered products selected wanted) l

  take_product-Offered :
      (l : CartQuantities) (p : MenuProduct)
      → Offered l
      → Mem p products
      → Offered (take_product selected wanted l p)
  unfolding take_product
  take_product-Offered l p h m =
      let accepted = min (lookup_or wanted p.id 0) (maximum selected p) in
      elim (Bool-cases (ltb 0 accepted)) [
        | inl e ↦
            let some_taken : 0 < maximum selected p = ground arith in
            let (whole, free, evident) = maximum-positive selected p some_taken in
            rw e (
              assign-All (IsOffered products selected wanted) l p.id accepted h (record {
                product = p;
                listed = m;
                named = refl;
                positive = ground arith;
                sold = ground arith;
                wanted_too = ground arith;
                free = any-eq-false (has selected) p.allergens free;
                evident = evident;
              }))
        | inr e ↦ rw e h
      ]

  take_products-Offered :
      (l : CartQuantities) (ps : List MenuProduct)
      → Offered l
      → All (λ p. Mem p products) ps
      → Offered (take_products selected wanted l ps)
  take_products-Offered l [] h m = h
  take_products-Offered l (p ∷ ps) h (m, ms) =
      take_products-Offered (take_product selected wanted l p) ps (take_product-Offered l p h m) ms

All-Mem : {A : Type 0} (l : List A) → All (λ p. Mem p l) l
All-Mem [] = tt
All-Mem (p ∷ ps) = (mem-cons_self, All-map ps (λ q m. mem-cons_of_mem p m) (All-Mem ps))

filter-All :
    {A : Type 0} (P : A → Type 0) (f : A → Bool) (l : List A)
    → All P l
    → All (λ x. P x × (f x ≡ true)) (filter f l)
filter-All P f [] h = tt
filter-All P f (x ∷ xs) (p, h) = elim (Bool-cases (f x)) [
  | inl e ↦ rw e ((p, e), filter-All P f xs h)
  | inr e ↦ rw e (filter-All P f xs h)
]

-- The identifier of a window of the list that still takes orders.
pub record IsOpen (windows : List FulfillmentWindow) (id : String) : Type 0 where
  pub window : FulfillmentWindow
  pub listed : Mem window windows
  pub selectable : is_selectable window ≡ true
  pub named : window.id ≡ id

module _ (windows : List FulfillmentWindow) where
  abbrev Selectable : List FulfillmentWindow → Type 0
  Selectable l = All (λ w. Mem w windows × (is_selectable w ≡ true)) l

  any-IsOpen :
      (id : String) (l : List FulfillmentWindow)
      → Selectable l
      → any (λ w. w.id === id) l ≡ true
      → IsOpen windows id
  any-IsOpen id [] h e = cc
  any-IsOpen id (w ∷ ws) ((m, s), h) e = elim (Bool-cases (w.id === id)) [
    | inl x ↦ record { window = w; listed = m; selectable = s; named = ===→eq w.id id x }
    | inr x ↦ any-IsOpen id ws h (rw x at e)
  ]

  choose_window-IsOpen :
      (wanted : String) (l : List FulfillmentWindow)
      → Selectable l
      → ((l ≡ []) × (choose_window wanted l ≡ "")) ⊎ IsOpen windows (choose_window wanted l)
  unfolding choose_window
  choose_window-IsOpen wanted [] h = inl (refl, refl)
  choose_window-IsOpen wanted (w ∷ ws) h = elim (Bool-cases (any (λ v. v.id === wanted) (w ∷ ws))) [
    | inl x ↦ rw x (inr (any-IsOpen wanted (w ∷ ws) h x))
    | inr x ↦ rw x (inr (record { window = w; listed = h.0.0; selectable = h.0.1; named = refl }))
  ]

-- What a checked draft has.
pub record IsRecovered (draft : RecoverableDraft) (fixture : PreorderFixture) (r : RecoveredDraft)
    : Type 0 where
  pub window :
      ((filter is_selectable fixture.fulfillment_windows ≡ []) × (r.selected_window ≡ ""))
      ⊎ IsOpen fixture.fulfillment_windows r.selected_window
  pub allergens :
      r.selected_allergens ≡ filter (has fixture.allergen_options) draft.selected_allergens
  pub offered : All (IsOffered fixture.products r.selected_allergens draft.quantities) r.quantities

-- A saved draft that is checked against the menu has the identifier of a window that still takes
-- orders, or the empty one if no window does; the saved allergens that the menu knows; and in its
-- cart only products of the menu, each no more than was saved and than is sold, with none of these
-- allergens, and with verified allergens if any is selected.
pub revalidate_recovered_draft-IsRecovered :
    (draft : RecoverableDraft) (fixture : PreorderFixture)
    → IsRecovered draft fixture (revalidate_recovered_draft draft fixture)
unfolding revalidate_recovered_draft
revalidate_recovered_draft-IsRecovered draft fixture =
    let windows = fixture.fulfillment_windows in
    record {
      window =
          choose_window-IsOpen windows draft.selected_window (filter is_selectable windows)
            (filter-All (λ w. Mem w windows) is_selectable windows (All-Mem windows));
      allergens = refl;
      offered =
          take_products-Offered fixture.products
            (filter (has fixture.allergen_options) draft.selected_allergens) draft.quantities []
            fixture.products tt (All-Mem fixture.products);
    }
