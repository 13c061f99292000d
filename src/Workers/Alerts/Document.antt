-- ===== src/Workers/Alerts/Document.antt =====
-- src/is_valid_exact_order_document.ts and src/is_valid_exact_order_provenance.ts of
-- momi-order-alert-worker-v1.
use mo_xx.Square.Types.{or_null}
use mo_xx.Js.Check.{text_with}
use mo_xx.Workers.Alerts.SameJson.{is_same_json_value}
use mo_xx.Workers.Alerts.Presentation.{
  is_content_hash, absent_or, timings, is_filled, is_boolean, one_of, is_date,
  is_valid_order_presentation, is_finite_count, all_low_hex,
}
use mo_xx.Js.Text.{is_uuid_v5}
use mo_xx.Shared.{◌&&◌, true, [], ◌∷◌, false, Bool, String, List}
use mo_xx.Js.Value.{prop, str, field_of, strict_eq, only_keys, obj, Fields, Value}

abbrev pub object_with : (Fields → Bool) → Value → Bool
object_with p (obj fs) = p fs
object_with p v = false

module _ (date_finite : String → Bool) where
  abbrev document_keys : List String
  document_keys =
      "id" ∷ "location_id" ∷ "channel_kind" ∷ "approval_status" ∷ "voided" ∷ "submitted_at"
      ∷ "business_date" ∷ "opened_at" ∷ "closed_at" ∷ "guest_count" ∷ "fulfillment" ∷ "presentation"
      ∷ []

  abbrev channel_kinds : List String
  channel_kinds = "in_store" ∷ "out_of_store" ∷ "unknown" ∷ []

  abbrev approval_statuses : List String
  approval_statuses = "approved" ∷ "future" ∷ "pending" ∷ "rejected" ∷ "unknown" ∷ []

  -- the document's own fields
  unfoldable pub is_document : String → Fields → Bool
  unfolding is_finite_count is_uuid_v5
  is_document order_id fs =
      only_keys document_keys fs
      && strict_eq (field_of fs "id") (str order_id)
      && is_uuid_v5 order_id
      && text_with is_uuid_v5 (field_of fs "location_id")
      && one_of channel_kinds (field_of fs "channel_kind")
      && one_of approval_statuses (field_of fs "approval_status")
      && is_boolean (field_of fs "voided")
      && absent_or (is_date date_finite) (field_of fs "submitted_at")
      && absent_or (is_date date_finite) (field_of fs "opened_at")
      && absent_or (is_date date_finite) (field_of fs "closed_at")
      && absent_or (text_with is_filled) (field_of fs "business_date")
      && absent_or is_finite_count (field_of fs "guest_count")

  -- its fulfillment, which the presentation repeats
  unfoldable pub is_fulfillment : Value → Fields → Bool
  is_fulfillment presentation fs =
      only_keys ("timing" ∷ "at" ∷ []) fs
      && one_of timings (field_of fs "timing")
      && absent_or (is_date date_finite) (field_of fs "at")
      && strict_eq (prop presentation "fulfillment_timing") (field_of fs "timing")
      && strict_eq (or_null (prop presentation "fulfillment_at")) (or_null (field_of fs "at"))

  unfoldable pub is_valid_exact_order_document : Value → String → Value → Bool
  unfolding is_document is_fulfillment is_valid_order_presentation is_same_json_value
  is_valid_exact_order_document (obj fs) order_id presentation =
      is_valid_order_presentation date_finite true presentation
      && object_with (is_fulfillment presentation) (field_of fs "fulfillment")
      && is_valid_order_presentation date_finite true (field_of fs "presentation")
      && is_document order_id fs
      && is_same_json_value (field_of fs "presentation") presentation
  is_valid_exact_order_document v order_id presentation = false

  unfoldable pub is_exact_provenance : String → Fields → Bool
  unfolding all_low_hex
  is_exact_provenance source_system fs =
      strict_eq (field_of fs "source_system") (str source_system)
      && strict_eq (field_of fs "resource_type") (str "order")
      && text_with is_filled (field_of fs "source_id")
      && text_with is_filled (field_of fs "source_version_id")
      && text_with is_content_hash (field_of fs "source_content_hash")
      && strict_eq (field_of fs "projection_contract") (str "canonical-resource-v2")
      && is_date date_finite (field_of fs "observed_at")
