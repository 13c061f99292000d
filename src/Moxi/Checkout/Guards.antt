-- ===== src/Moxi/Checkout/Guards.antt =====
-- What follows from a checkout that is not rejected.
use mo_xx.Moxi.Checkout.{reject_checkout, is_same_money, MoneyContract, CheckoutCall}
use mo_xx.Shared.{
  inr, arith, ===→eq, ◌==◌, refl, inl, false, Bool-cases, ◌||◌, true, ◌===◌, if◌then◌else◌, not,
  Bool, [], ◌≡◌, String, List,
}
use mo_xx.Js.Session.{pure, returned}

-- A rejection unless two tests agree, then the value.
pub guarded-returned :
    {A : Type 0} (b c : Bool) (m n : String) (x y : A) (h : List CheckoutCall)
    → ((if b then reject_checkout m else if not c then reject_checkout n else pure x) h).result
      ≡ returned y
    → (b ≡ false) × (c ≡ true) × (y ≡ x)
guarded-returned true c m n x y h e = cc
guarded-returned false true m n x y h e = (refl, refl, cc)
guarded-returned false false m n x y h e = cc

pub guarded-calls :
    {A : Type 0} (b c : Bool) (m n : String) (x : A) (h : List CheckoutCall)
    → ((if b then reject_checkout m else if not c then reject_checkout n else pure x) h).calls ≡ []
guarded-calls true c m n x h = refl
guarded-calls false true m n x h = refl
guarded-calls false false m n x h = refl

pub equal_both : (s t u v : String) → (not (s === t) || not (u === v)) ≡ false → (s ≡ t) × (u ≡ v)
equal_both s t u v e = elim (Bool-cases (s === t)) [
  | inl x ↦ elim (Bool-cases (u === v)) [ inl y ↦ (===→eq s t x, ===→eq u v y) | inr y ↦ cc ]
  | inr x ↦ cc
]

pub neither : (a b : Bool) → (not a || b) ≡ false → (a ≡ true) × (b ≡ false)
neither true b e = (refl, e)
neither false b e = cc

pub is_same_money-equal :
    (a b : MoneyContract)
    → is_same_money a b ≡ true
    → (a.amount_minor ≡ b.amount_minor) × (a.currency ≡ b.currency)
is_same_money-equal a b e = elim (Bool-cases (a.amount_minor == b.amount_minor)) [
  | inl x ↦ elim (Bool-cases (a.currency === b.currency)) [
    | inl y ↦ (ground arith, ===→eq a.currency b.currency y)
    | inr y ↦ cc
  ]
  | inr x ↦ cc
]
