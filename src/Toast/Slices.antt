-- ===== src/Toast/Slices.antt =====
-- resolve_window.ts of toast-data-acquisition-v1: the slices of a longer window.
use mo_xx.Toast.Jobs.{
  end_value, initial_start, end_key, single, or_else_value, start_key, is_undefined, is_set,
  has_keys,
}
use mo_xx.Square.Types.{or_empty}
use mo_xx.Js.Check.{throw, ok, bind, Exc}
use mo_xx.Toast.Dates.{slice_ms, Calendar}
use mo_xx.Toast.{WindowResolution, RegisteredOperation, ClaimedJob}
use mo_xx.Shared.{ltb, leb, some, not, min, Option, ◌+◌, ℕ, none, if◌then◌else◌, ◌&&◌, String}
use mo_xx.Js.Value.{strict_eq, str, field, field_of, Value}

abbrev pub slice_result : RegisteredOperation → ℕ → ℕ → String → String → WindowResolution
slice_result op u e start slice_end = record {
  parameters = field (start_key op) (str start) (single (end_key op) (str slice_end));
  cursor_context = single "window_start" (str start);
  next_cursor = (if ltb u e then some (single "window_start" (str slice_end)) else none);
  coverage_start = some start;
  coverage_end = some slice_end;
}

module _ (calendar : Calendar) where
  -- the slice from `t` on, of a window that ends at `e`
  unfoldable pub slice_window : RegisteredOperation → ℕ → ℕ → Exc WindowResolution
  slice_window op t e =
      let u = min e (t + slice_ms) in
      bind (calendar.iso t)
        λ start. bind (calendar.iso u) λ slice_end. ok (slice_result op u e start slice_end)

  -- with an end that is no date the comparison with it is false, and its text cannot be written
  unfoldable pub slice_between : RegisteredOperation → Option ℕ → Option ℕ → Exc WindowResolution
  unfolding slice_window
  slice_between op none e = throw "Acquisition window is invalid"
  slice_between op (some t) none =
      if not (has_keys op)
      then throw "Registered window parameters are unavailable"
      else throw "RangeError"
  slice_between op (some t) (some e) =
      if leb e t
      then throw "Acquisition window is invalid"
      else if not (has_keys op)
      then throw "Registered window parameters are unavailable"
      else slice_window op t e

  unfoldable pub complete_window :
      RegisteredOperation → Value → Option String → Exc WindowResolution
  unfolding slice_between
  complete_window op (str s) e =
      if not (is_set e)
      then throw "Registered operation requires a complete window"
      else slice_between op (calendar.parse s) (calendar.parse (or_empty e))
  complete_window op v e = throw "Registered operation requires a complete window"

  unfoldable pub policy_window :
      ClaimedJob → RegisteredOperation → String → Value → Exc WindowResolution
  unfolding complete_window
  policy_window job op now policy =
      if not (is_undefined policy) && not (strict_eq policy (str "first_business_date"))
      then throw "Window policy is not supported"
      else complete_window op
          (or_else_value (field_of job.cursor "window_start") (initial_start job op policy))
          (end_value job policy now)
