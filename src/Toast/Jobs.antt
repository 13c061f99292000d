-- ===== src/Toast/Jobs.antt =====
-- resolve_window.ts of toast-data-acquisition-v1: what it reads of a job and of its operation.
use mo_xx.Toast.Dates.{ends_with}
use mo_xx.Toast.{WindowResolution, RegisteredOperation, ClaimedJob}
use Prim.Native.String
use mo_xx.Shared.{
  some, not, Option, ◌||◌, none, ◌===◌, if◌then◌else◌, false, [], ◌∷◌, ◌&&◌, true, any, String,
  Bool, List,
}
use mo_xx.Js.Value.{strict_eq, str, field, end, field_of, Fields, Value, undefined, null}

abbrev pub empty_window : ClaimedJob → WindowResolution
empty_window job = record {
  parameters = end;
  cursor_context = end;
  next_cursor = none;
  coverage_start = job.window_start;
  coverage_end = job.window_end;
}

abbrev pub single : String → Value → Fields
single k v = field k v end

abbrev pub allowed_cursor : List String
allowed_cursor = "page" ∷ "pageToken" ∷ "window_start" ∷ "businessDate" ∷ []

abbrev pub same_bool : Bool → Bool → Bool
same_bool a b = if a then b else not b

-- `v ?? d`
abbrev pub or_else_value : Value → Value → Value
or_else_value undefined d = d
or_else_value null d = d
or_else_value v d = v

abbrev pub is_undefined : Value → Bool
is_undefined undefined = true
is_undefined v = false

abbrev pub is_null : Value → Bool
is_null null = true
is_null v = false

-- `queryKeys.has(key)`
abbrev pub in_query_of : RegisteredOperation → String → Bool
in_query_of op key = any (λ p. p.in_query && p.parameter_key === key) op.operation_parameters

abbrev pub needs_business_date : RegisteredOperation → Bool
needs_business_date op =
    any (λ p. p.parameter_key === "businessDate" && p.required) op.operation_parameters

unfoldable pub business_key : ClaimedJob → RegisteredOperation → Value
business_key job op =
    or_else_value (field_of job.parameters "date_selector")
      (if needs_business_date op then str "businessDate" else null)

abbrev pub is_registered_key : RegisteredOperation → String → Bool
is_registered_key op key =
    in_query_of op key && (ends_with "BusinessDate" key || key === "businessDate")

-- a text that is set
abbrev pub is_set : Option String → Bool
is_set none = false
is_set (some s) = not (s === "")

abbrev pub is_modified : RegisteredOperation → Bool
is_modified op =
    op.resource_type === "time_entry"
    && in_query_of op "modifiedStartDate"
    && in_query_of op "modifiedEndDate"

abbrev pub start_key : RegisteredOperation → String
start_key op = if is_modified op then "modifiedStartDate" else "startDate"

abbrev pub end_key : RegisteredOperation → String
end_key op = if is_modified op then "modifiedEndDate" else "endDate"

abbrev pub has_keys : RegisteredOperation → Bool
has_keys op = in_query_of op (start_key op) && in_query_of op (end_key op)

abbrev pub text_or_null : Option String → Value
text_or_null none = null
text_or_null (some s) = str s

-- `operation.first_business_date && ...`
abbrev pub first_date : Option String → Value
first_date none = null
first_date (some s) = if s === "" then str "" else str (String.◌++◌ s "T00:00:00.000Z")

abbrev pub initial_start : ClaimedJob → RegisteredOperation → Value → Value
initial_start job op policy =
    if strict_eq policy (str "first_business_date")
    then first_date op.first_business_date
    else text_or_null job.window_start

-- `job.window_end ?? (policy === "first_business_date" ? now : null)`
abbrev pub end_value : ClaimedJob → Value → String → Option String
end_value job policy now = elim job.window_end [
  | some e ↦ some e
  | none ↦ if strict_eq policy (str "first_business_date") then some now else none
]

abbrev pub is_given : ClaimedJob → String → Bool
is_given job key = not (is_undefined (field_of job.parameters key))

abbrev pub is_unpaired : ClaimedJob → Bool
is_unpaired job =
    not (same_bool (is_given job "startDate") (is_given job "endDate"))
    || not (same_bool (is_given job "modifiedStartDate") (is_given job "modifiedEndDate"))

abbrev pub is_explicit : ClaimedJob → Bool
is_explicit job =
    any (is_given job) ("businessDate" ∷ "shiftIds" ∷ "timeEntryIds" ∷ [])
    || is_given job "startDate"
    || is_given job "modifiedStartDate"
