-- ===== src/Moxi/Draft.antt =====
-- MoXi/src/features/preorder/draft.ts, the check of a saved draft against the menu as it is now, with
-- the types of model.ts that it reads. A record of quantities is a list in the order of its keys,
-- none of which is a number or a name that objects inherit.
pub mod Recovery
pub mod Unadjusted
use mo_xx.Shared.{
  ◌||◌, [], ◌∷◌, ltb, has, any, if◌then◌else◌, Bool, true, false, not, min, ◌&&◌, map, length, ◌==◌,
  ◌===◌, ℕ, String, List,
}
use mo_xx.Moxi.Checkout.{lookup_or}

pub data Availability : Type 0 where
  available limited closed sold_out : Availability

pub record FulfillmentWindow : Type 0 where
  pub id : String
  pub availability : Availability

pub data AllergenStatus : Type 0 where
  verified unverified : AllergenStatus

pub record MenuProduct : Type 0 where
  pub id : String
  pub allergens : List String
  pub allergen_status : AllergenStatus
  pub maximum_quantity : ℕ

pub record PreorderFixture : Type 0 where
  pub fulfillment_windows : List FulfillmentWindow
  pub allergen_options : List String
  pub products : List MenuProduct

abbrev pub CartQuantities : Type 0
CartQuantities = List (String × ℕ)

pub record RecoverableDraft : Type 0 where
  pub selected_window : String
  pub selected_allergens : List String
  pub quantities : CartQuantities

pub record RecoveredDraft : Type 0 where
  pub selected_window : String
  pub selected_allergens : List String
  pub quantities : CartQuantities
  pub adjusted : Bool

-- `l.filter(p)`
abbrev pub filter {ℓ} : {A : Type ℓ} → (A → Bool) → List A → List A
filter p [] = []
filter p (x ∷ xs) = let rest = filter p xs in if p x then x ∷ rest else rest

abbrev pub is_selectable : FulfillmentWindow → Bool
is_selectable w = elim w.availability [ available ↦ true | limited ↦ true | _ ↦ false ]

-- `l[0]?.id ?? ""`
abbrev pub first_id : List FulfillmentWindow → String
first_id [] = ""
first_id (w ∷ ws) = w.id

unfoldable pub choose_window : String → List FulfillmentWindow → String
choose_window wanted windows =
    if any (λ w. w.id === wanted) windows then wanted else first_id windows

abbrev pub is_verified : AllergenStatus → Bool
is_verified verified = true
is_verified unverified = false

-- `maximum` of a product under the selected allergens
unfoldable pub maximum : List String → MenuProduct → ℕ
maximum selected p =
    let conflicts = any (has selected) p.allergens in
    let lacks_requested_evidence = ltb 0 (length selected) && not (is_verified p.allergen_status) in
    if not lacks_requested_evidence && not conflicts then p.maximum_quantity else 0

-- `record[key] = n`
abbrev pub assign : CartQuantities → String → ℕ → CartQuantities
assign [] key n = (key, n) ∷ []
assign (entry ∷ l) key n =
    let rest = assign l key n in if entry.0 === key then (key, n) ∷ l else entry ∷ rest

unfoldable pub take_product :
    List String → CartQuantities → CartQuantities → MenuProduct → CartQuantities
unfolding maximum
take_product selected requested quantities p =
    let accepted = min (lookup_or requested p.id 0) (maximum selected p) in
    if ltb 0 accepted then assign quantities p.id accepted else quantities

-- the loop over the products
abbrev pub take_products :
    List String → CartQuantities → CartQuantities → List MenuProduct → CartQuantities
take_products selected requested quantities [] = quantities
take_products selected requested quantities (p ∷ ps) =
    take_products selected requested (take_product selected requested quantities p) ps

-- the equality of two records as JSON
abbrev pub is_same_record : CartQuantities → CartQuantities → Bool
is_same_record [] [] = true
is_same_record (x ∷ xs) (y ∷ ys) =
    let rest = is_same_record xs ys in x.0 === y.0 && x.1 == y.1 && rest
is_same_record xs ys = false

unfoldable pub revalidate_recovered_draft : RecoverableDraft → PreorderFixture → RecoveredDraft
unfolding choose_window take_product
revalidate_recovered_draft draft fixture =
    let selected_window =
      choose_window draft.selected_window (filter is_selectable fixture.fulfillment_windows) in
    let selected_allergens = filter (has fixture.allergen_options) draft.selected_allergens in
    let quantities = take_products selected_allergens draft.quantities [] fixture.products in
    let before_quantities = filter (λ entry. ltb 0 entry.1) draft.quantities in
    record {
      selected_window = selected_window;
      selected_allergens = selected_allergens;
      quantities = quantities;
      adjusted =
          not (selected_window === draft.selected_window)
          || not (length selected_allergens == length draft.selected_allergens)
          || not (is_same_record quantities before_quantities);
    }
