-- ===== src/Preorder/Contribution.antt =====
-- momi-preorder-contribution-v1: src/correction.ts and src/compare_context.ts, the comparison of a saved
-- selection with the current one.
pub mod Details
pub mod Unchanged
use mo_xx.Js.Check.{to_string, get, ok, bind, Exc}
use mathlib.Core.Option.{none}
use mathlib.Core.List.{[]}
use Prim.Native.String
use mo_xx.Shared.{
  false, ltb, leb, some, true, [], ◌∷◌, ◌++◌, ◌&&◌, ℕ, if◌then◌else◌, String, Option, List, Bool,
  ◌≡◌,
}
use mo_xx.Js.Value.{strict_eq, prop, Value}

pub record Correction : Type 0 where
  pub code : String
  pub field_name : String
  pub message : String
  pub next_action : String
  pub announcement : String
  pub focus_target : String

abbrev pub correction : String → String → String → String → Correction
correction code field_name message next_action = record {
  code = code;
  field_name = field_name;
  message = message;
  next_action = next_action;
  announcement = message;
  focus_target = String.◌++◌ "preorder-" field_name;
}

-- A part of the selection that is compared as a whole: its key, its field, the code and the action.
pub record Part : Type 0 where
  pub key : String
  pub field_name : String
  pub code : String
  pub action : String

abbrev part : String → String → String → String → Part
part key field_name code action = record {
  key = key;
  field_name = field_name;
  code = code;
  action = action;
}

abbrev pub parts : List Part
parts =
    part "campaign_ref" "campaign" "stale" "refresh"
    ∷ part "menu_ref" "menu" "stale" "refresh"
    ∷ part "event_ref" "event" "stale" "refresh"
    ∷ part "product_ref" "product" "product_changed" "edit_item"
    ∷ part "option_refs" "option" "option_changed" "edit_item"
    ∷ part "eligibility_evidence" "eligibility" "eligibility_changed" "edit_item"
    ∷ part "allergen_evidence" "allergen" "allergen_changed" "edit_item"
    ∷ part "rule_refs" "eligibility" "eligibility_changed" "refresh"
    ∷ part "disclosures" "disclosures" "disclosure_changed" "review_disclosures"
    ∷ []

-- What the comparison is given: `JSON.stringify`, `Date.parse` of a text in milliseconds from the
-- earliest date that there is (none for NaN), and the time now.
pub record Clockwork : Type 0 where
  pub stringify : Value → Value
  pub date_of : String → Option ℕ
  pub now : ℕ

-- a correction, unless the test holds
abbrev pub unless : Bool → Correction → List Correction
unless b c = if b then [] else c ∷ []

-- the corrections of the tests that do not hold, in their order
unfoldable pub unless_all : List (Bool × Correction) → List Correction
unless_all [] = []
unless_all ((b, c) ∷ ts) = unless b c ++ unless_all ts

module _ (w : Clockwork) where
  abbrev pub same_json : Value → Value → Bool
  same_json a b = strict_eq (w.stringify a) (w.stringify b)

  -- No field has an underscore to replace in the message.
  abbrev part_correction : Part → Correction
  part_correction f =
      correction f.code f.field_name
        (String.◌++◌ "The preorder "
          (String.◌++◌ f.field_name " changed. Review the current selection."))
        f.action

  unfoldable pub part_changes : List Part → Value → Value → Exc (List Correction)
  part_changes [] supplied current = ok []
  part_changes (f ∷ fs) supplied current =
      let others = part_changes fs supplied current in
      bind (get supplied f.key) λ before. bind (get current f.key) λ after.
        bind others λ rest. ok (unless (same_json before after) (part_correction f) ++ rest)

  abbrev pub same_property : Value → Value → String → Bool
  same_property supplied current key = strict_eq (prop supplied key) (prop current key)

  abbrev pub same_window : Value → Value → Bool
  same_window supplied current =
      same_property supplied current "owner_service"
      && same_property supplied current "contract_key"
      && same_property supplied current "resource_id"
      && same_property supplied current "resource_version"

  abbrev pub same_deposit : Value → Value → Bool
  same_deposit supplied current =
      same_property supplied current "deposit_rule"
      && same_json (prop supplied "deposit") (prop current "deposit")

  -- `!(!isFinite(supplied) || !isFinite(current) || supplied > current)`
  abbrev pub is_covered : Option ℕ → Option ℕ → Bool
  is_covered (some a) (some b) = leb a b
  is_covered _ _ = false

  -- `!(date <= now)`, which holds of NaN
  abbrev pub is_current : Option ℕ → Bool
  is_current none = true
  is_current (some a) = ltb w.now a

  -- the tests that follow the parts that are compared as a whole, each with its correction
  abbrev pub detail_tests : Value → Value → Option ℕ → Option ℕ → List (Bool × Correction)
  detail_tests supplied current supplied_expiry current_expiry =
      let before = prop supplied "fulfillment_evidence" in
      let after = prop current "fulfillment_evidence" in
      let old_price = prop supplied "pricing" in
      let new_price = prop current "pricing" in
      (
        same_window (prop supplied "fulfillment_ref") (prop current "fulfillment_ref"),
        correction "fulfillment_changed" "window" "The pickup window changed." "choose_fulfillment",
      )
      ∷ (
        same_property before after "pickup_date",
        correction "fulfillment_changed" "pickup_date" "The pickup date changed."
            "choose_fulfillment",
      )
      ∷ (
        same_json (prop before "location_ref") (prop after "location_ref"),
        correction "fulfillment_changed" "location" "The pickup location changed."
            "choose_fulfillment",
      )
      ∷ (
        same_property before after "availability",
        correction "capacity_changed" "capacity" "Pickup availability changed."
            "choose_fulfillment",
      )
      ∷ (
        same_property before after "cutoff_at",
        correction "fulfillment_changed" "cutoff" "The order cutoff changed." "choose_fulfillment",
      )
      ∷ (
        same_json (prop old_price "unit_price") (prop new_price "unit_price"),
        correction "price_changed" "price" "The preorder price changed. Review the current price."
            "review_price",
      )
      ∷ (
        same_json (prop old_price "option_price_deltas") (prop new_price "option_price_deltas"),
        correction "price_changed" "price"
            "The preorder option price changed. Review the current price." "review_price",
      )
      ∷ (
        same_deposit old_price new_price,
        correction "deposit_changed" "deposit"
            "The preorder payment or deposit rule changed. Review the current rule." "review_price",
      )
      ∷ (
        is_covered supplied_expiry current_expiry,
        correction "stale" "eligibility"
            "The preorder validity period changed. Refresh the selection." "refresh",
      )
      ∷ (
        is_current supplied_expiry && is_current current_expiry,
        correction "expired" "eligibility" "The preorder evidence expired. Refresh it." "refresh",
      )
      ∷ []

  -- `Date.parse` of a value makes a text of it first.
  abbrev pub parse_date : Value → Exc (Option ℕ)
  parse_date v = bind (to_string v) λ text. ok (w.date_of text)

  -- what follows the parts: each first read of a property throws on null and on undefined
  unfoldable pub detail_changes : Value → Value → Exc (List Correction)
  unfolding unless_all
  detail_changes supplied current =
      bind (get (prop supplied "fulfillment_ref") "owner_service") λ _.
        bind (get (prop current "fulfillment_ref") "owner_service") λ _.
          bind (get (prop supplied "fulfillment_evidence") "pickup_date") λ _.
            bind (get (prop current "fulfillment_evidence") "pickup_date") λ _.
              bind (get (prop supplied "pricing") "unit_price") λ _.
                bind (get (prop current "pricing") "unit_price") λ _.
                  bind (parse_date (prop supplied "valid_until")) λ supplied_expiry.
                    bind (parse_date (prop current "valid_until")) λ current_expiry.
                      ok (unless_all (detail_tests supplied current supplied_expiry current_expiry))

  -- src/compare_context.ts
  unfoldable pub compare_context : Value → Value → Exc (List Correction)
  unfolding part_changes detail_changes
  compare_context supplied current =
      bind (part_changes parts supplied current)
        λ changed. bind (detail_changes supplied current) λ more. ok (changed ++ more)
