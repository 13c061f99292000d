-- ===== src/Tests/Alerts.antt =====
-- The order alert worker, at a work whose order is read and decided, and JSON values compared.
use mo_xx.Workers.Alerts.SameJson.Equivalence.{same_object-prop, is_same_json_value-IsEquivalence}
use mo_xx.Workers.Alerts.SameJson.Reflexivity.{IsJson}
use mo_xx.Js.Text.{utf16_length, matches}
use mo_xx.Workers.Alerts.Claims.{execute_claim-revokes, execute_claim-IsAllowed}
use mo_xx.Workers.Projection.{retry_wait, result_of}
use mo_xx.Workers.Alerts.Work.{execute_claim}
use mo_xx.Workers.Alerts.Authority.{IsAllowed}
use mo_xx.Workers.Alerts.Acknowledgement.{process_event_delivery-IsRightful, IsRightful}
use mo_xx.Tests.{order_uuid, attempt_uuid}
use mo_xx.Workers.Delivery.{DeliveryTrigger}
use mo_xx.Workers.Alerts.SameJson.{is_same_json_value}
use mo_xx.Workers.Alerts.Execution.{revoke_capability, issue_capability, Url, AlertWorld, AlertCall}
use mo_xx.Workers.Alerts.Events.{process_event_delivery}
use mo_xx.Workers.Alerts.{WorkClaim, ready, latest_order_contract, WorkTriggerInput, ClaimedWork}
use mo_xx.Js.Value.{
  prop, strict_eq, field_of, nil, null, end, whole, str, cons, number, bool, arr, field, obj, Value,
}
use mo_xx.Js.Session.Traces.{AllAfter}
use mo_xx.Shared.{has, ◌++◌, ◌∷◌, false, refl, ◌===◌, true, some, none, ◌≡◌, not, [], List}
use mo_xx.Js.Session.{returned}

abbrev delivery : DeliveryTrigger
delivery = record { event_id = order_uuid; message_id = "7"; capability_token = attempt_uuid }

abbrev work : ClaimedWork
work = record {
  work_id = "12";
  attempt_id = "1";
  invocation_id = attempt_uuid;
  source_system = "toast";
  source_version_id = "v1";
  location_id = none;
  order_id = order_uuid;
  api_contract_key = latest_order_contract;
  api_contract_version = (whole 1, "1");
  api_route_path = "/functions/v1/orders";
  trigger_token = attempt_uuid;
}

abbrev url : Url
url = record {
  origin = "https://project";
  pathname = "/functions/v1/orders";
  search = "";
  hash = "";
  href = "https://project/functions/v1/orders";
}

abbrev presentation : Value
presentation = obj (
    field "presentation_version" (number (whole 1) "1") (
      field "display_number" (str "42") (
        field "fulfillment_at" null (
          field "fulfillment_epoch" null (
            field "item_count" (number (whole 0) "0")
              (field "total_amount" null (field "items" (arr nil) end)))))))

abbrev order_answer : Value
order_answer = obj (
    field "ok" (bool true) (
      field "contract_key" (str latest_order_contract) (
        field "contract_version" (number (whole 1) "1") (
          field "work_id" (str "90") (
            field "order_id" (str order_uuid) (
              field "trace_id" (str order_uuid) (
                field "schema_version" (number (whole 1) "1") (
                  field "order_document"
                    (obj (field "id" (str order_uuid) (field "location_id" (str order_uuid) end)))
                    (field "order_presentation" presentation (
                      field "provenance"
                        (obj (
                          field "source_system" (str "toast") (
                            field "resource_type" (str "order") (
                              field "source_version_id" (str "v1")
                                (field "observed_at" (str "2026-07-15T10:00:00Z") end)))))
                        (field "freshness"
                          (obj (
                            field "observed_at" (str "2026-07-15T10:00:00Z") (
                              field "projected_at" (str "2026-07-15T10:00:01Z")
                                (field "age_seconds" (number (whole 1) "1") end))))
                          end)))))))))))

abbrev world : AlertWorld
world = record {
  date_finite = λ s. not (s === "");
  code_sha = some "abc";
  project_url = some "https://project";
  gateway_key = some "key";
  project_of = λ s. returned url;
  endpoint_of = λ s u. returned url;
  begin_of = λ d h. returned true;
  stage_of = λ d h. returned (some (ready "12" attempt_uuid false));
  acknowledge_of = λ d h. returned true;
  failure_of = λ d text h. returned retry_wait;
  claim_of = λ input h. returned (WorkClaim.claimed work);
  issue_of = λ j d h. returned (("90", order_uuid) ∷ []);
  revoke_of = λ j work_id h. returned true;
  fetch = λ u body h. returned (200, returned order_answer);
  complete_of = λ j body h. returned true;
  record_of = λ j status code h. returned tt;
}

abbrev input : WorkTriggerInput
input = record { work_id = "12"; trigger_token = attempt_uuid }

process_event_delivery_run :
    (process_event_delivery world delivery []).result
    ≡ returned (result_of delivery "processed" none)
unfolding process_event_delivery field_of matches strict_eq utf16_length
process_event_delivery_run = refl

process_event_delivery-IsRightful_example :
    AllAfter (IsRightful world delivery) [] (process_event_delivery world delivery []).calls
process_event_delivery-IsRightful_example = process_event_delivery-IsRightful world delivery []

execute_claim-IsAllowed_example :
    AllAfter
      (IsAllowed world work (some delivery) "https://project")
      []
      (execute_claim world input "https://project"
        (some delivery)
        (WorkClaim.claimed work)
        []).calls
execute_claim-IsAllowed_example =
    execute_claim-IsAllowed world work input "https://project" (some delivery) []

execute_claim-revokes_example :
    (before after : List AlertCall) × ((execute_claim world input "https://project"
        (some delivery)
        (WorkClaim.claimed work)
        []).calls
      ≡ issue_capability work delivery ∷ before ++ revoke_capability work "90" ∷ after)
execute_claim-revokes_example =
    execute_claim-revokes world work input "https://project" delivery [] "90" order_uuid refl refl

abbrev one : Value
one = obj (field "a" (number (whole 1) "1") (field "b" (arr (cons null nil)) end))

abbrev turned : Value
turned = obj (field "b" (arr (cons null nil)) (field "a" (number (whole 1) "1") end))

same_turned : is_same_json_value one turned ≡ true
unfolding is_same_json_value strict_eq field_of
same_turned = refl

is_same_json_value-IsEquivalence_example :
    (is_same_json_value one one ≡ true)
    × (is_same_json_value turned one ≡ true)
    × (is_same_json_value one one ≡ true)
unfolding is_same_json_value strict_eq field_of IsJson
is_same_json_value-IsEquivalence_example =
    is_same_json_value-IsEquivalence one turned one ((refl, (refl, tt)), (tt, ((tt, tt), tt)))
      ((refl, (refl, tt)), ((tt, tt), (tt, tt))) refl refl

same_object-prop_example :
    (has ("a" ∷ "b" ∷ []) "c" ≡ has ("b" ∷ "a" ∷ []) "c")
    × (is_same_json_value (prop one "c") (prop turned "c") ≡ true)
unfolding is_same_json_value strict_eq field_of IsJson
same_object-prop_example =
    same_object-prop (field "a" (number (whole 1) "1") (field "b" (arr (cons null nil)) end))
      (field "b" (arr (cons null nil)) (field "a" (number (whole 1) "1") end)) "c"
      ((refl, (refl, tt)), (tt, ((tt, tt), tt))) ((refl, (refl, tt)), ((tt, tt), (tt, tt))) refl
