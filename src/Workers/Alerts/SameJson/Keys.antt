-- ===== src/Workers/Alerts/SameJson/Keys.antt =====
-- Lists of keys without repetition, and what the properties of two objects have to do with them.
use mathlib.Core.List.{[]}
use mo_xx.Shared.{
  sym, subst, refl, eq_refl, ap, inr, ===→eq, suc, inl, eq_iff, length, arith, Bool-cases, true,
  false, ◌≡◌, if◌then◌else◌, ◌∷◌, ◌===◌, has, String, List,
}

abbrev pub Distinct : List String → Type 0
Distinct [] = Unit
Distinct (k ∷ ks) = (has ks k ≡ false) × Distinct ks

remove : String → List String → List String
remove k [] = []
remove k (x ∷ xs) = let rest = remove k xs in if x === k then xs else x ∷ rest

===-trans-false : (x k j : String) → (x === k) ≡ true → (k === j) ≡ false → (x === j) ≡ false
===-trans-false x k j h n = ground (arith, eq_iff x k, eq_iff k j, eq_iff x j)

length-remove :
    (k : String) (ys : List String) → has ys k ≡ true → length ys ≡ suc (length (remove k ys))
unfolding remove
length-remove k [] h = cc
length-remove k (x ∷ xs) h = elim (Bool-cases (x === k)) [
  | inl e ↦ rw e refl
  | inr e ↦ rw e (ap suc (length-remove k xs (rw e at h)))
]

has-remove :
    (k j : String) (ys : List String)
    → (k === j) ≡ false
    → has ys j ≡ true
    → has (remove k ys) j ≡ true
unfolding remove
has-remove k j [] n h = cc
has-remove k j (x ∷ xs) n h = elim (Bool-cases (x === k)) [
  | inl e ↦ rw e (rw (===-trans-false x k j e n) at h)
  | inr e ↦ elim (Bool-cases (x === j)) [
    | inl f ↦ rw e (rw f refl)
    | inr f ↦ rw e (rw f (has-remove k j xs n (rw f at h)))
  ]
]

has-distinct :
    (x k : String) (xs : List String) → has xs x ≡ false → has xs k ≡ true → (x === k) ≡ false
has-distinct x k xs n h = elim (Bool-cases (x === k)) [
  | inl e ↦
      let same : x ≡ k = ===→eq x k e in
      let h' : has xs x ≡ true = subst (λ z. has xs z ≡ true) (sym same) h in cc
  | inr e ↦ e
]

-- Of two lists of the same length, where the first has no key twice, the first has every key of the
-- second if the second has every key of the first.
pub has-converse :
    (xs ys : List String)
    → Distinct xs
    → ((k : String) → has xs k ≡ true → has ys k ≡ true)
    → length xs ≡ length ys
    → (k : String) → has ys k ≡ true
    → has xs k ≡ true
has-converse [] [] d f e k h = cc
has-converse [] (y ∷ ys) d f e k h = absurd (omega arith)
has-converse (x ∷ xs) ys (n, d) f e k h = elim (Bool-cases (x === k)) [
  | inl s ↦ rw s refl
  | inr s ↦
      let there : has ys x ≡ true = f x (rw (eq_refl x) refl) in
      let keep = λ (j : String) (i : has xs j ≡ true).
        let apart = has-distinct x j xs n i in has-remove x j ys apart (f j (rw apart i)) in
      let fewer : length xs ≡ length (remove x ys) = omega (arith, length-remove x ys there) in
      rw s (has-converse xs (remove x ys) d keep fewer k (has-remove x k ys s h))
]
