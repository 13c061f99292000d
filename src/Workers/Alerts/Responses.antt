-- ===== src/Workers/Alerts/Responses.antt =====
-- The validation of the order API's answers: src/is_valid_order_response.ts,
-- src/is_valid_canonical_order_response.ts and src/is_valid_latest_order_response.ts.
use mo_xx.Workers.Alerts.Document.{is_exact_provenance, object_with, is_valid_exact_order_document}
use mo_xx.Js.Check.{text_with}
use mathlib.Core.Option.{none}
use mo_xx.Workers.Alerts.Presentation.{
  is_content_hash, is_version, is_filled, is_date, is_valid_order_presentation, is_finite_count,
  is_count, all_low_hex,
}
use mo_xx.Js.Text.{is_uuid_v5}
use mo_xx.Workers.Alerts.{
  legacy_order_contract, exact_order_contract, latest_order_contract, ClaimedWork, ReadCapability,
}
use mo_xx.Shared.{
  ◌||◌, ◌==◌, length, ◌===◌, ◌&&◌, true, not, if◌then◌else◌, [], ◌∷◌, some, false, Bool, String,
  Option, List,
}
use mo_xx.Js.Value.{
  is_object, prop, number, keys, is_positive_integer, bool, str, field_of, strict_eq, only_keys,
  obj, null, Fields, Value,
}

abbrev text_or_null : Option String → Value
text_or_null none = null
text_or_null (some s) = str s

abbrev contradicts : Option ReadCapability → ClaimedWork → Bool
contradicts none job = false
contradicts (some c) job = not (c.contract_key === job.api_contract_key)

abbrev is_some : Option ReadCapability → Bool
is_some none = false
is_some (some c) = true

module _ (date_finite : String → Bool) where
  -- what the exact and the latest answer share
  unfoldable pub answers_capability : String → Fields → ClaimedWork → ReadCapability → Bool
  unfolding is_uuid_v5
  answers_capability contract fs job capability =
      job.api_contract_key === contract
      && capability.contract_key === contract
      && strict_eq (field_of fs "ok") (bool true)
      && strict_eq (field_of fs "contract_key") (str contract)
      && strict_eq (field_of fs "contract_version")
          (number job.api_contract_version.0 job.api_contract_version.1)
      && strict_eq (field_of fs "work_id") (str capability.work_id)
      && strict_eq (field_of fs "order_id") (str job.order_id)
      && text_with is_uuid_v5 (field_of fs "trace_id")

  abbrev is_fresh : (Value → Bool) → Value → Fields → Bool
  is_fresh is_age observed_at fs =
      strict_eq (field_of fs "observed_at") observed_at
      && is_date date_finite (field_of fs "projected_at")
      && is_age (field_of fs "age_seconds")

  abbrev response_keys : List String
  response_keys =
      "ok" ∷ "contract_key" ∷ "contract_version" ∷ "trace_id" ∷ "work_id" ∷ "order_id"
      ∷ "order_version_id" ∷ "schema_version" ∷ "order_document" ∷ "order_presentation"
      ∷ "provenance" ∷ "freshness" ∷ []

  abbrev freshness_keys : List String
  freshness_keys = "observed_at" ∷ "projected_at" ∷ "age_seconds" ∷ []

  -- all keys of an object are allowed, and there are as many
  abbrev has_exactly : List String → Fields → Bool
  has_exactly allowed fs = only_keys allowed fs && length (keys fs) == length allowed

  unfoldable pub is_valid_canonical_order_response : Value → ClaimedWork → ReadCapability → Bool
  unfolding answers_capability is_valid_exact_order_document is_exact_provenance is_uuid_v5
  is_valid_canonical_order_response (obj fs) job capability =
      has_exactly response_keys fs
      && answers_capability exact_order_contract fs job capability
      && strict_eq (field_of fs "order_version_id") (str job.source_version_id)
      && text_with is_uuid_v5 (field_of fs "order_version_id")
      && is_version 2 (field_of fs "schema_version")
      && is_valid_exact_order_document date_finite (field_of fs "order_document") job.order_id
          (field_of fs "order_presentation")
      && object_with (is_exact_provenance date_finite job.source_system) (field_of fs "provenance")
      && object_with (has_exactly freshness_keys) (field_of fs "freshness")
      && object_with (is_fresh is_finite_count (prop (field_of fs "provenance") "observed_at"))
          (field_of fs "freshness")
  is_valid_canonical_order_response v job capability = false

  unfoldable pub is_latest_provenance : String → Fields → Bool
  is_latest_provenance source_system fs =
      strict_eq (field_of fs "source_system") (str source_system)
      && strict_eq (field_of fs "resource_type") (str "order")
      && text_with is_filled (field_of fs "source_version_id")
      && is_date date_finite (field_of fs "observed_at")

  abbrev is_latest_document : String → Fields → Bool
  is_latest_document order_id fs =
      strict_eq (field_of fs "id") (str order_id)
      && text_with is_uuid_v5 (field_of fs "location_id")

  unfoldable pub is_valid_latest_order_response : Value → ClaimedWork → ReadCapability → Bool
  unfolding answers_capability is_latest_provenance is_count is_valid_order_presentation is_uuid_v5
  is_valid_latest_order_response (obj fs) job capability =
      answers_capability latest_order_contract fs job capability
      && is_positive_integer (field_of fs "schema_version")
      && object_with (is_latest_document job.order_id) (field_of fs "order_document")
      && is_valid_order_presentation date_finite false (field_of fs "order_presentation")
      && object_with (is_latest_provenance job.source_system) (field_of fs "provenance")
      && object_with (is_fresh is_count (prop (field_of fs "provenance") "observed_at"))
          (field_of fs "freshness")
  is_valid_latest_order_response v job capability = false

  unfoldable pub is_valid_legacy_order_response : Value → ClaimedWork → Bool
  unfolding is_valid_order_presentation is_uuid_v5 all_low_hex
  is_valid_legacy_order_response (obj fs) job =
      strict_eq (field_of fs "ok") (bool true)
      && strict_eq (field_of fs "contract_key") (str job.api_contract_key)
      && strict_eq (field_of fs "contract_version")
          (number job.api_contract_version.0 job.api_contract_version.1)
      && strict_eq (field_of fs "work_id") (str job.work_id)
      && strict_eq (field_of fs "work_source_version_id") (str job.source_version_id)
      && strict_eq (field_of fs "source_system") (str job.source_system)
      && strict_eq (field_of fs "source_version_id") (str job.source_version_id)
      && strict_eq (field_of fs "location_id") (text_or_null job.location_id)
      && strict_eq (field_of fs "order_id") (str job.order_id)
      && text_with is_uuid_v5 (field_of fs "trace_id")
      && is_date date_finite (field_of fs "retrieved_at")
      && text_with is_content_hash (field_of fs "content_hash")
      && is_object (field_of fs "payload")
      && is_valid_order_presentation date_finite false (field_of fs "order_presentation")
  is_valid_legacy_order_response v job = false

  abbrev with_capability : Option ReadCapability → (ReadCapability → Bool) → Bool
  with_capability none p = false
  with_capability (some c) p = p c

  unfoldable pub is_valid_order_response : Value → ClaimedWork → Option ReadCapability → Bool
  unfolding is_valid_canonical_order_response is_valid_latest_order_response
      is_valid_legacy_order_response
  is_valid_order_response body job capability =
      if contradicts capability job
      then false
      else if job.api_contract_key === exact_order_contract
      then with_capability capability (is_valid_canonical_order_response body job)
      else if job.api_contract_key === latest_order_contract
      then with_capability capability (is_valid_latest_order_response body job)
      else if not (job.api_contract_key === legacy_order_contract) || is_some capability
      then false
      else is_valid_legacy_order_response body job
