-- ===== src/Toast/Window.antt =====
-- resolve_window.ts of toast-data-acquisition-v1: the resolution of a window.
use mo_xx.Toast.Slices.{policy_window}
use mo_xx.Toast.Jobs.{
  empty_window, is_explicit, is_unpaired, is_undefined, allowed_cursor, business_key,
}
use mo_xx.Toast.BusinessDays.{business_window}
use mo_xx.Js.Check.{throw, ok, Exc}
use mo_xx.Toast.Dates.{Calendar}
use mo_xx.Toast.{WindowResolution, RegisteredOperation, ClaimedJob}
use mo_xx.Shared.{not, ◌||◌, if◌then◌else◌, String}
use mo_xx.Js.Value.{only_keys, str, field_of, Value, null}

module _ (calendar : Calendar) where
  unfoldable pub plain_window : ClaimedJob → RegisteredOperation → String → Exc WindowResolution
  unfolding policy_window
  plain_window job op now =
      if not (is_undefined (field_of job.cursor "businessDate"))
      then throw "Business-date cursor is not valid for this operation"
      else if is_unpaired job
      then throw "Explicit window parameters must be paired"
      else if not op.requires_window || is_explicit job
      then (if not (is_undefined (field_of job.cursor "window_start"))
          then throw "Window cursor is not valid for explicit parameters"
          else ok (empty_window job))
      else policy_window calendar job op now (field_of job.parameters "window_policy")

  unfoldable pub keyed_window :
      ClaimedJob → RegisteredOperation → String → Value → Exc WindowResolution
  unfolding business_window plain_window
  keyed_window job op now null = plain_window job op now
  keyed_window job op now (str key) = business_window calendar job op key
  keyed_window job op now v = throw "Business-date selector is not registered"

  unfoldable pub resolve_window : ClaimedJob → RegisteredOperation → String → Exc WindowResolution
  unfolding business_key keyed_window
  resolve_window job op now =
      if not (only_keys allowed_cursor job.cursor)
      then throw "Acquisition cursor contains an unsupported key"
      else keyed_window job op now (business_key job op)
