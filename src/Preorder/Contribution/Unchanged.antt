-- ===== src/Preorder/Contribution/Unchanged.antt =====
-- When the comparison of a selection finds nothing to correct.
use mo_xx.Preorder.Contribution.Details.{
  IsReadable, bind_readable, append-eq-empty, unless_all_of_true, is_covered-bounds, later-ltb,
  part_changes-eq-empty, part_changes-readable, detail_changes-HasDetails, SameParts,
}
use mo_xx.Js.Check.Inversion.{ok-inj, bind-eq-ok}
use mo_xx.Js.Check.{ok}
use mo_xx.Js.Value.{strict_eq, prop, Value}
use mo_xx.Preorder.Contribution.{
  detail_changes, parse_date, detail_tests, same_property, same_window, parts, is_current,
  is_covered, Part, part_changes, compare_context, Clockwork,
}
use mo_xx.Shared.{
  ap, ◌∙◌, String, ◌&&◌, ◌↔◌, le→leb, &&-eq-true, ◌<◌, ◌≤◌, some, refl, ◌∷◌, true, ℕ, [], All, List,
  ◌≡◌,
}

-- The two values are the same as JSON, and the two objects have the same value under the key.
abbrev pub SameJson : Clockwork → Value → Value → Type 0
SameJson w a b = strict_eq (w.stringify a) (w.stringify b) ≡ true

abbrev pub Same : Value → Value → String → Type 0
Same a b key = strict_eq (prop a key) (prop b key) ≡ true

-- A selection whose parts can be read.
pub record HasParts (selection : Value) : Type 0 where
  pub itself : IsReadable selection
  pub window : IsReadable (prop selection "fulfillment_ref")
  pub evidence : IsReadable (prop selection "fulfillment_evidence")
  pub price : IsReadable (prop selection "pricing")

-- A selection that is still the current one, and has not expired.
pub record IsUnchanged (w : Clockwork) (supplied current : Value) : Type 0 where
  pub supplied_object : HasParts supplied
  pub current_object : HasParts current
  pub whole_parts :
      All
        (λ key. SameJson w (prop supplied key) (prop current key))
        ("campaign_ref" ∷ "menu_ref" ∷ "event_ref" ∷ "product_ref" ∷ "option_refs"
          ∷ "eligibility_evidence" ∷ "allergen_evidence" ∷ "rule_refs" ∷ "disclosures" ∷ [])
  pub window :
      All
        (λ key. Same (prop supplied "fulfillment_ref") (prop current "fulfillment_ref") key)
        ("owner_service" ∷ "contract_key" ∷ "resource_id" ∷ "resource_version" ∷ [])
  pub evidence :
      All
        (λ key.
          Same (prop supplied "fulfillment_evidence") (prop current "fulfillment_evidence") key)
        ("pickup_date" ∷ "availability" ∷ "cutoff_at" ∷ [])
  pub location :
      SameJson w
        (prop (prop supplied "fulfillment_evidence") "location_ref")
        (prop (prop current "fulfillment_evidence") "location_ref")
  pub prices :
      All
        (λ key. SameJson w (prop (prop supplied "pricing") key) (prop (prop current "pricing") key))
        ("unit_price" ∷ "option_price_deltas" ∷ "deposit" ∷ [])
  pub deposit_rule : Same (prop supplied "pricing") (prop current "pricing") "deposit_rule"
  pub supplied_until : ℕ
  pub current_until : ℕ
  pub supplied_dated : parse_date w (prop supplied "valid_until") ≡ ok (some supplied_until)
  pub current_dated : parse_date w (prop current "valid_until") ≡ ok (some current_until)
  pub covered : supplied_until ≤ current_until
  pub unexpired : w.now < supplied_until

module _ (w : Clockwork) (supplied current : Value) where
  same_window-keys :
      (a b : Value)
      → same_window w a b ≡ true
      → All (Same a b) ("owner_service" ∷ "contract_key" ∷ "resource_id" ∷ "resource_version" ∷ [])
  same_window-keys a b h =
      let (h1, version) = &&-eq-true _ (same_property w a b "resource_version") h in
      let (h2, resource) = &&-eq-true _ (same_property w a b "resource_id") h1 in
      let (owner, contract) =
        &&-eq-true (same_property w a b "owner_service") (same_property w a b "contract_key") h2 in
      (owner, (contract, (resource, (version, tt))))

  same_window_of_keys :
      (a b : Value)
      → All (Same a b) ("owner_service" ∷ "contract_key" ∷ "resource_id" ∷ "resource_version" ∷ [])
      → same_window w a b ≡ true
  same_window_of_keys a b (owner, (contract, (resource, (version, t)))) =
      rw (owner, contract, resource, version) refl

  compare_context-IsUnchanged :
      compare_context w supplied current ≡ ok [] → IsUnchanged w supplied current
  unfolding compare_context
  compare_context-IsUnchanged h =
      let (changed, p, h1) = bind-eq-ok (part_changes w parts supplied current) _ h in
      let (more, q, h2) = bind-eq-ok (detail_changes w supplied current) _ h1 in
      let (c, m) = append-eq-empty changed more (ok-inj h2) in
      let (readable_supplied, readable_current) =
        part_changes-readable w supplied current changed p in
      let d = detail_changes-HasDetails w supplied current (q ∙ ap ok m) in
      let (window, r1) = d.tests in
      let (pickup_date, r2) = r1 in
      let (location, r3) = r2 in
      let (availability, r4) = r3 in
      let (cutoff, r5) = r4 in
      let (price, r6) = r5 in
      let (option_prices, r7) = r6 in
      let (deposit, r8) = r7 in
      let (covered, r9) = r8 in
      let (fresh, r10) = r9 in
      let (a, b, x, y, le, lt) =
        is_covered-bounds w d.supplied_until d.current_until covered (&&-eq-true _ _ fresh).0 in
      record {
        supplied_object = record {
          itself = readable_supplied;
          window = d.window.0;
          evidence = d.evidence.0;
          price = d.price.0;
        };
        current_object = record {
          itself = readable_current;
          window = d.window.1;
          evidence = d.evidence.1;
          price = d.price.1;
        };
        whole_parts = part_changes-eq-empty w supplied current parts (p ∙ ap ok c);
        window = same_window-keys (prop supplied "fulfillment_ref") _ window;
        evidence = (pickup_date, (availability, (cutoff, tt)));
        location = location;
        prices = (price, (option_prices, ((&&-eq-true _ _ deposit).1, tt)));
        deposit_rule = (&&-eq-true _ _ deposit).0;
        supplied_until = a;
        current_until = b;
        supplied_dated = d.supplied_dated ∙ ap ok x;
        current_dated = d.current_dated ∙ ap ok y;
        covered = le;
        unexpired = lt;
      }

  part_changes_of_same :
      (fs : List Part)
      → IsReadable supplied
      → IsReadable current
      → SameParts w supplied current fs
      → part_changes w fs supplied current ≡ ok []
  unfolding part_changes
  part_changes_of_same [] r q h = refl
  part_changes_of_same (f ∷ fs) r q (a, k) =
      bind_readable supplied f.key _ r
      ∙ bind_readable current f.key _ q
      ∙ rw (part_changes_of_same fs r q k, a) refl

  IsUnchanged-tests :
      (u : IsUnchanged w supplied current)
      → All
          (λ t. t.0 ≡ true)
          (detail_tests w supplied current (some u.supplied_until) (some u.current_until))
  IsUnchanged-tests u =
      let covered : is_covered w (some u.supplied_until) (some u.current_until) ≡ true =
        le→leb _ _ u.covered in
      let fresh : (is_current w (some u.supplied_until) && is_current w (some u.current_until))
          ≡ true =
        later-ltb w.now u.supplied_until u.current_until u.unexpired u.covered in
      (
        same_window_of_keys (prop supplied "fulfillment_ref") _ u.window,
        (
          u.evidence.0,
          (
            u.location,
            (
              u.evidence.1.0,
              (
                u.evidence.1.1.0,
                (
                  u.prices.0,
                  (
                    u.prices.1.0,
                    (rw (u.deposit_rule, u.prices.1.1.0) refl, (covered, (fresh, tt))),
                  ),
                ),
              ),
            ),
          ),
        ),
      )

  detail_changes_of_same :
      IsUnchanged w supplied current → detail_changes w supplied current ≡ ok []
  unfolding detail_changes
  detail_changes_of_same u =
      bind_readable _ _ _ u.supplied_object.window
      ∙ bind_readable _ _ _ u.current_object.window
      ∙ bind_readable _ _ _ u.supplied_object.evidence
      ∙ bind_readable _ _ _ u.current_object.evidence
      ∙ bind_readable _ _ _ u.supplied_object.price
      ∙ bind_readable _ _ _ u.current_object.price
      ∙ rw (u.supplied_dated, u.current_dated)
          (ap ok (
            unless_all_of_true
              (detail_tests w supplied current (some u.supplied_until) (some u.current_until))
              (IsUnchanged-tests u)))

  -- The comparison of a saved selection with the current one returns no correction, rather than
  -- corrections or an exception, exactly if both have the parts that are read, each part is the
  -- same as JSON, the pickup window, date, location, availability and cutoff, the prices and the
  -- deposit are the current ones, and the saved selection expires after now and not after the
  -- current one.
  pub compare_context_iff :
      (compare_context w supplied current ≡ ok []) ↔ IsUnchanged w supplied current
  unfolding compare_context
  compare_context_iff = (
    compare_context-IsUnchanged,
    λ u.
        rw
          (
            part_changes_of_same parts u.supplied_object.itself u.current_object.itself
                u.whole_parts,
            detail_changes_of_same u,
          )
          refl,
  )
