-- ===== src/Tests/Toast.antt =====
-- The windows of a job whose span takes four slices, on a calendar that writes a moment in units.
use mo_xx.Js.Text.Length.{utf16_length-append}
use mo_xx.Js.Check.{ok}
use Prim.Native.Nat.{zero}
use mo_xx.Toast.Tiling.{windows-Tiles, Tiles, StartsAt, IsWindowed, IsFaithful}
use mo_xx.Toast.Slices.{slice_result}
use mo_xx.Toast.Run.{windows}
use mo_xx.Toast.Window.{resolve_window}
use mo_xx.Toast.Resolution.{resolve_window-IsWindow, IsWindow}
use mo_xx.Toast.Jobs.{business_key}
use mo_xx.Toast.Dates.{Calendar}
use mo_xx.Toast.{WindowResolution, RegisteredOperation, ClaimedJob}
use mo_xx.Js.Text.{utf16_length}
use Prim.Native.String
use mo_xx.Shared.{
  inr, ===→eq, inl, [], ◌∷◌, Bool-cases, false, ◌===◌, refl, none, arith, ap, ◌≡◌, ◌<◌, true, suc,
  some, ℕ, String, List,
}
use mo_xx.Js.Value.{end, strict_eq, field_of}

marks : ℕ → String
marks zero = ""
marks (suc n) = String.◌++◌ "x" (marks n)

utf16_length-marks : (n : ℕ) → utf16_length (marks n) ≡ n
unfolding marks utf16_length
utf16_length-marks zero = refl
utf16_length-marks (suc n) = omega (arith, utf16_length-append "x" (marks n), utf16_length-marks n)

abbrev calendar : Calendar
calendar = record { parse = λ s. some (utf16_length s); iso = λ t. ok (marks t) }

calendar-IsFaithful : (e : ℕ) → IsFaithful calendar e
calendar-IsFaithful e t p = (marks t, refl, ap some (utf16_length-marks t))

abbrev operation : RegisteredOperation
operation = record {
  resource_type = "order";
  requires_window = true;
  first_business_date = none;
  operation_parameters =
      record { parameter_key = "startDate"; in_query = true; required = false }
      ∷ record { parameter_key = "endDate"; in_query = true; required = false }
      ∷ [];
}

abbrev job_until : String → ClaimedJob
job_until stop = record {
  window_start = some "a";
  window_end = some stop;
  cursor = end;
  parameters = end;
}

-- three slices of 28 days, and 4 milliseconds
abbrev last_moment : ℕ
last_moment = 7257600005

marks-filled : (n : ℕ) → 0 < n → (marks n === "") ≡ false
unfolding utf16_length
marks-filled n p = elim (Bool-cases (marks n === "")) [
  | inl e ↦
      let none_left : marks n ≡ "" = ===→eq (marks n) "" e in
      let len : utf16_length (marks n) ≡ 0 = ap utf16_length none_left in
      absurd (omega (arith, utf16_length-marks n))
  | inr e ↦ e
]

abbrev long_job : ClaimedJob
long_job = job_until (marks last_moment)

long_job-IsWindowed : IsWindowed calendar operation long_job last_moment
unfolding business_key field_of
long_job-IsWindowed = record {
  end_text = marks last_moment;
  no_business_date = refl;
  required = refl;
  paired = refl;
  not_explicit = refl;
  no_policy = refl;
  has_end = refl;
  filled = marks-filled last_moment (omega arith);
  read_end = ap some (utf16_length-marks last_moment);
  registered = refl;
}

long_job-StartsAt : StartsAt long_job end "a"
unfolding field_of
long_job-StartsAt = record { allowed = refl; no_business_date = refl; start = refl }

read_start : calendar.parse "a" ≡ some 1
unfolding utf16_length
read_start = refl

windows-Tiles_example :
    (l : List (String × String)) × (windows calendar operation "now" 4 long_job ≡ ok (some l))
    × Tiles calendar last_moment 1 l
windows-Tiles_example =
    windows-Tiles calendar operation "now" long_job last_moment long_job-IsWindowed
      (calendar-IsFaithful last_moment) 4 end "a" 1 long_job-StartsAt read_start (omega arith)
      (omega arith)

abbrev short_window : WindowResolution
short_window = slice_result operation 3 3 (marks 1) (marks 3)

short_resolved : resolve_window calendar (job_until "abc") operation "now" ≡ ok short_window
unfolding resolve_window field_of utf16_length strict_eq
short_resolved = refl

resolve_window-IsWindow_example : IsWindow calendar (job_until "abc") operation "now" short_window
resolve_window-IsWindow_example =
    resolve_window-IsWindow calendar (job_until "abc") operation "now" short_window short_resolved
