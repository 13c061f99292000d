-- ===== src/Toast/BusinessDays.antt =====
-- resolve_window.ts of toast-data-acquisition-v1: the windows of one business date.
use mo_xx.Toast.Jobs.{or_else_value, is_set, empty_window, is_undefined, single, is_registered_key}
use mo_xx.Square.Types.{or_empty}
use mo_xx.Js.Check.{throw, ok, bind, Exc}
use mo_xx.Js.Keys.{text_lt}
use mo_xx.Toast.Dates.{iso_of, midnight_text, is_business_date, day_ms, business_date, Calendar}
use mo_xx.Toast.{WindowResolution, RegisteredOperation, ClaimedJob}
use mo_xx.Shared.{some, not, Option, ◌+◌, ◌||◌, ℕ, none, ◌===◌, if◌then◌else◌, String}
use mo_xx.Js.Value.{str, field_of, Value}

-- a business date's window, and the next date unless the window ends
unfoldable pub day_result : String → String → String → String → String → WindowResolution
unfolding business_date text_lt
day_result key current window_end day next_day =
    let next = business_date next_day in
    record {
      parameters = single key (str current);
      cursor_context = single "businessDate" (str current);
      next_cursor =
          (if text_lt next (business_date window_end)
            then some (single "businessDate" (str next))
            else none);
      coverage_start = some day;
      coverage_end = some next_day;
    }

module _ (calendar : Calendar) where
  -- the day from `t` on
  unfoldable pub day_window : String → String → String → ℕ → Exc WindowResolution
  unfolding day_result
  day_window key current window_end t = bind (calendar.iso t) λ day.
      bind (calendar.iso (t + day_ms))
        λ next_day. ok (day_result key current window_end day next_day)

  abbrev pub day_from : String → String → String → Option ℕ → Exc WindowResolution
  day_from key current window_end none = throw "RangeError"
  day_from key current window_end (some t) = day_window key current window_end t

  unfoldable pub business_day : String → String → String → Exc WindowResolution
  unfolding is_business_date midnight_text day_window
  business_day key current window_end =
      if not (is_business_date current)
      then throw "Business-date cursor is invalid"
      else (let t = calendar.parse (midnight_text current) in
          bind (iso_of calendar t) λ day.
            if not (business_date day === current)
            then throw "Business-date cursor is not a calendar date"
            else day_from key current window_end t)

  unfoldable pub business_cursor : String → ClaimedJob → Value → Exc WindowResolution
  unfolding business_day
  business_cursor key job (str current) = business_day key current (or_empty job.window_end)
  business_cursor key job v = throw "Business-date cursor is invalid"

  unfoldable pub business_window : ClaimedJob → RegisteredOperation → String → Exc WindowResolution
  unfolding business_cursor business_date
  business_window job op key =
      if not (is_registered_key op key)
      then throw "Business-date selector is not registered"
      else if not (is_undefined (field_of job.parameters key))
      then ok (empty_window job)
      else if not (is_set job.window_start) || not (is_set job.window_end)
      then throw "Business-date operation requires a window"
      else business_cursor key job (
          or_else_value (field_of job.cursor "businessDate")
            (str (business_date (or_empty job.window_start))))
