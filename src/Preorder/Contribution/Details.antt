-- ===== src/Preorder/Contribution/Details.antt =====
-- What is known once the comparison corrects nothing: its parts and its details, test by test.
use mo_xx.Js.Check.Inversion.{ok-inj, bind-eq-ok}
use mo_xx.Js.Check.{bind, Exc, ok, get}
use mo_xx.Js.Value.{null, undefined, prop, Value}
use mo_xx.Preorder.Contribution.{
  detail_changes, parse_date, detail_tests, unless_all, parts, is_current, same_json, is_covered,
  Part, unless, part_changes, Correction, Clockwork,
}
use mo_xx.Shared.{
  ap, ◌∙◌, sym, ◌≢◌, String, ◌&&◌, ltb, arith, ◌<◌, ◌≤◌, some, refl, ◌∷◌, true, ℕ, [], All, ◌++◌,
  Option, List, Bool, ◌≡◌,
}

-- A value of which a property can be read.
abbrev pub IsReadable : Value → Type 0
IsReadable v = (v ≢ undefined) × (v ≢ null)

pub get-IsReadable :
    {a : Value} (v : Value) (k : String) → get v k ≡ ok a → IsReadable v × (a ≡ prop v k)
get-IsReadable undefined k h = cc
get-IsReadable null k h = cc
get-IsReadable v k h = ((λ e. cc, λ e. cc), sym (ok-inj h))

IsReadable-get : (v : Value) (k : String) → IsReadable v → get v k ≡ ok (prop v k)
IsReadable-get undefined k h = absurd (h.0 refl)
IsReadable-get null k h = absurd (h.1 refl)
IsReadable-get v k h = refl

-- What an exceptional value is after a readable one.
pub bind_readable :
    {A : Type 0} (v : Value) (k : String) (f : Value → Exc A)
    → IsReadable v
    → bind (get v k) f ≡ f (prop v k)
bind_readable v k f r = rw (IsReadable-get v k r) refl

pub append-eq-empty : {A : Type 0} (xs ys : List A) → xs ++ ys ≡ [] → (xs ≡ []) × (ys ≡ [])
append-eq-empty [] ys h = (refl, h)
append-eq-empty (x ∷ xs) ys h = cc

unless-eq-empty : (b : Bool) (c : Correction) → unless b c ≡ [] → b ≡ true
unless-eq-empty true c h = refl
unless-eq-empty Bool.false c h = cc

unless_all-eq-empty :
    (ts : List (Bool × Correction)) → unless_all ts ≡ [] → All (λ t. t.0 ≡ true) ts
unfolding unless_all
unless_all-eq-empty [] h = tt
unless_all-eq-empty ((b, c) ∷ ts) h =
    let (x, y) = append-eq-empty (unless b c) (unless_all ts) h in
    (unless-eq-empty b c x, unless_all-eq-empty ts y)

pub unless_all_of_true :
    (ts : List (Bool × Correction)) → All (λ t. t.0 ≡ true) ts → unless_all ts ≡ []
unfolding unless_all
unless_all_of_true [] h = refl
unless_all_of_true ((b, c) ∷ ts) (h, k) = rw h (unless_all_of_true ts k)

pub is_covered-bounds :
    (w : Clockwork) (x y : Option ℕ)
    → is_covered w x y ≡ true
    → is_current w x ≡ true
    → (a : ℕ) × (b : ℕ) × (x ≡ some a) × (y ≡ some b) × (a ≤ b) × (w.now < a)
is_covered-bounds w (some a) (some b) h k = (a, b, refl, refl, ground arith, ground arith)
is_covered-bounds w (some a) Option.none h k = cc
is_covered-bounds w Option.none y h k = cc

pub later-ltb : (n a b : ℕ) → n < a → a ≤ b → (ltb n a && ltb n b) ≡ true
later-ltb n a b h k = ground arith

module _ (w : Clockwork) (supplied current : Value) where
  abbrev pub SameParts : List Part → Type 0
  SameParts fs = All (λ f. same_json w (prop supplied (f.key)) (prop current (f.key)) ≡ true) fs

  pub part_changes-eq-empty :
      (fs : List Part) → part_changes w fs supplied current ≡ ok [] → SameParts fs
  unfolding part_changes
  part_changes-eq-empty [] h = tt
  part_changes-eq-empty (f ∷ fs) h =
      let (a, before, h1) = bind-eq-ok (get supplied f.key) _ h in
      let (b, after, h2) = bind-eq-ok (get current f.key) _ h1 in
      let (rest, others, h3) = bind-eq-ok (part_changes w fs supplied current) _ h2 in
      let (x, y) = append-eq-empty _ rest (ok-inj h3) in
      let same : same_json w a b ≡ true = unless-eq-empty (same_json w a b) _ x in
      let (_, p) = get-IsReadable supplied f.key before in
      let (_, q) = get-IsReadable current f.key after in
      (rw (sym p, sym q) same, part_changes-eq-empty fs (others ∙ ap ok y))

  pub part_changes-readable :
      (l : List Correction)
      → part_changes w parts supplied current ≡ ok l
      → IsReadable supplied × IsReadable current
  unfolding part_changes
  part_changes-readable l h =
      let (a, before, h1) = bind-eq-ok (get supplied "campaign_ref") _ h in
      let (b, after, h2) = bind-eq-ok (get current "campaign_ref") _ h1 in
      (
        (get-IsReadable supplied "campaign_ref" before).0,
        (get-IsReadable current "campaign_ref" after).0,
      )

  -- The details hold, and what is read for them can be read.
  pub record HasDetails : Type 0 where
    pub supplied_until : Option ℕ
    pub current_until : Option ℕ
    pub window :
        IsReadable (prop supplied "fulfillment_ref") × IsReadable (prop current "fulfillment_ref")
    pub evidence :
        IsReadable (prop supplied "fulfillment_evidence")
        × IsReadable (prop current "fulfillment_evidence")
    pub price : IsReadable (prop supplied "pricing") × IsReadable (prop current "pricing")
    pub supplied_dated : parse_date w (prop supplied "valid_until") ≡ ok supplied_until
    pub current_dated : parse_date w (prop current "valid_until") ≡ ok current_until
    pub tests : All (λ t. t.0 ≡ true) (detail_tests w supplied current supplied_until current_until)

  pub detail_changes-HasDetails : detail_changes w supplied current ≡ ok [] → HasDetails
  unfolding detail_changes
  detail_changes-HasDetails h =
      let (_, r1, h1) = bind-eq-ok (get (prop supplied "fulfillment_ref") "owner_service") _ h in
      let (_, r2, h2) = bind-eq-ok (get (prop current "fulfillment_ref") "owner_service") _ h1 in
      let (_, r3, h3) =
        bind-eq-ok (get (prop supplied "fulfillment_evidence") "pickup_date") _ h2 in
      let (_, r4, h4) = bind-eq-ok (get (prop current "fulfillment_evidence") "pickup_date") _ h3 in
      let (_, r5, h5) = bind-eq-ok (get (prop supplied "pricing") "unit_price") _ h4 in
      let (_, r6, h6) = bind-eq-ok (get (prop current "pricing") "unit_price") _ h5 in
      let (a, d1, h7) = bind-eq-ok (parse_date w (prop supplied "valid_until")) _ h6 in
      let (b, d2, h8) = bind-eq-ok (parse_date w (prop current "valid_until")) _ h7 in
      record {
        supplied_until = a;
        current_until = b;
        window = ((get-IsReadable _ _ r1).0, (get-IsReadable _ _ r2).0);
        evidence = ((get-IsReadable _ _ r3).0, (get-IsReadable _ _ r4).0);
        price = ((get-IsReadable _ _ r5).0, (get-IsReadable _ _ r6).0);
        supplied_dated = d1;
        current_dated = d2;
        tests = unless_all-eq-empty (detail_tests w supplied current a b) (ok-inj h8);
      }
