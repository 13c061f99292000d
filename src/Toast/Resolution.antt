-- ===== src/Toast/Resolution.antt =====
-- What resolveWindow gives, on each of its branches.
use mo_xx.Toast.Spans.{set-or_empty, end_value-EndsAt, EndsAt, start-StartsFrom, StartsFrom}
use mo_xx.Js.Check.Inversion.{bind-eq-ok, if-throw, not-eq-false}
use mathlib.Core.Option.{none}
use mo_xx.Toast.Coverage.{
  IsWhole, IsDay, empty_window-IsWhole, day_result-IsDay, IsSlice, slice_window-IsSlice,
}
use mo_xx.Square.Types.{or_empty}
use mo_xx.Toast.Window.{resolve_window, keyed_window, plain_window}
use mo_xx.Toast.Slices.{policy_window, slice_between, complete_window}
use mo_xx.Toast.Jobs.{
  business_key, allowed_cursor, end_value, initial_start, or_else_value, is_explicit, has_keys,
  is_unpaired, is_undefined, is_set, is_registered_key, empty_window,
}
use mo_xx.Toast.BusinessDays.{
  business_window, business_cursor, day_from, day_result, day_window, business_day,
}
use mo_xx.Js.Check.{bind, ok, throw}
use mo_xx.Toast.{WindowResolution, RegisteredOperation, ClaimedJob}
use mo_xx.Toast.Dates.{iso_of, day_ms, midnight_text, business_date, is_business_date, Calendar}
use mo_xx.Shared.{
  sym, subst, ◌⊎◌, false, Bool, ===→eq, ◌&&◌, inr, inl, ◌===◌, ◌||◌, ◌<◌, ◌+◌, Bool-cases, leb,
  arith, some, ℕ, refl, Option, true, if◌then◌else◌, ◌≡◌, not, String,
}
use mo_xx.Js.Value.{only_keys, strict_eq, field_of, Value, null, str}

-- A window is the job's own with no parameter, if the operation requires none, the job has explicit
-- parameters, or one under its business-date key; or one business date under that key, from its
-- midnight on; or a slice of the window between the times that the job's texts name.
pub data IsWindow (calendar : Calendar) (job : ClaimedJob) (op : RegisteredOperation) (now : String)
    (r : WindowResolution) : Type 0 where
  whole :
      (op.requires_window ≡ false) ⊎ (is_explicit job ≡ true)
      → IsWhole job r
      → IsWindow calendar job op now r
  named :
      (key : String)
      → business_key job op ≡ str key
      → is_registered_key op key ≡ true
      → is_undefined (field_of job.parameters key) ≡ false
      → IsWhole job r
      → IsWindow calendar job op now r
  day :
      (key current a b : String) (t : ℕ)
      → business_key job op ≡ str key
      → is_registered_key op key ≡ true
      → or_else_value
          (field_of job.cursor "businessDate")
          (str (business_date (or_empty job.window_start)))
        ≡ str current
      → is_business_date current ≡ true
      → business_date a ≡ current
      → calendar.parse (midnight_text current) ≡ some t
      → calendar.iso t ≡ ok a
      → calendar.iso (t + day_ms) ≡ ok b
      → IsDay key current (or_empty job.window_end) a b r
      → IsWindow calendar job op now r
  slice :
      (start stop : String) (t e : ℕ)
      → StartsFrom job op start
      → calendar.parse start ≡ some t
      → EndsAt job now stop
      → calendar.parse stop ≡ some e
      → t < e
      → has_keys op ≡ true
      → IsSlice calendar op t e r
      → IsWindow calendar job op now r

module _ (calendar : Calendar) (job : ClaimedJob) (op : RegisteredOperation) (now : String)
    (r : WindowResolution) where
  abbrev Good : Type 0
  Good = IsWindow calendar job op now r

  slice_between-Good :
      (start stop : String) (t e : Option ℕ)
      → StartsFrom job op start
      → EndsAt job now stop
      → calendar.parse start ≡ t
      → calendar.parse stop ≡ e
      → slice_between calendar op t e ≡ ok r
      → Good
  unfolding slice_between
  slice_between-Good start stop none e a b c d h = cc
  slice_between-Good start stop (some t) none a b c d h = ground arith
  slice_between-Good start stop (some t) (some e) a b c d h =
      let (p, h1) = if-throw (leb e t) "Acquisition window is invalid" _ h in
      let (q, h2) =
        if-throw (not (has_keys op)) "Registered window parameters are unavailable" _ h1 in
      let less : t < e = ground arith in
      IsWindow.slice start stop t e a c b d less (not-eq-false (has_keys op) q)
        (slice_window-IsSlice calendar op t e r less h2)

  complete_window-Good :
      (v : Value) (e : Option String)
      → ((start : String) → v ≡ str start → StartsFrom job op start)
      → ((stop : String) → e ≡ some stop → EndsAt job now stop)
      → complete_window calendar op v e ≡ ok r
      → Good
  unfolding complete_window
  complete_window-Good (str s) e a b h =
      let (u, h1) =
        if-throw (not (is_set e)) "Registered operation requires a complete window" _ h in
      slice_between-Good s (or_empty e) (calendar.parse s) (calendar.parse (or_empty e)) (a s refl)
        (b (or_empty e) (set-or_empty e u)) refl refl h1
  complete_window-Good v e a b h = cc

  either_test : (a b : Bool) → (not a || b) ≡ true → (a ≡ false) ⊎ (b ≡ true)
  either_test true b h = inr h
  either_test false b h = inl refl

  plain_window-Good : plain_window calendar job op now ≡ ok r → Good
  unfolding plain_window policy_window
  plain_window-Good h =
      let policy = field_of job.parameters "window_policy" in
      let (_, h1) = if-throw (not (is_undefined (field_of job.cursor "businessDate"))) _ _ h in
      let (_, h2) = if-throw (is_unpaired job) _ _ h1 in
      elim (Bool-cases (not op.requires_window || is_explicit job)) [
        | inl x ↦
            let (_, h3) =
              if-throw (not (is_undefined (field_of job.cursor "window_start"))) _ _ (rw x at h2) in
            IsWindow.whole (either_test op.requires_window (is_explicit job) x)
              (empty_window-IsWhole job r h3)
        | inr x ↦
            let (_, h3) =
              if-throw
                (not (is_undefined policy) && not (strict_eq policy (str "first_business_date"))) _
                _ (rw x at h2) in
            complete_window-Good
              (or_else_value (field_of job.cursor "window_start") (initial_start job op policy))
              (end_value job policy now) (start-StartsFrom job op) (end_value-EndsAt job now) h3
      ]

  not-eq-true : (b : Bool) → not b ≡ true → b ≡ false
  not-eq-true true h = cc
  not-eq-true false h = refl

  business_day-Good :
      (key current : String)
      → business_key job op ≡ str key
      → is_registered_key op key ≡ true
      → or_else_value
          (field_of job.cursor "businessDate")
          (str (business_date (or_empty job.window_start)))
        ≡ str current
      → business_day calendar key current (or_empty job.window_end) ≡ ok r
      → Good
  unfolding business_day day_window
  business_day-Good key current n k c h =
      let (f, h1) = if-throw (not (is_business_date current)) _ _ h in
      go (calendar.parse (midnight_text current)) refl (not-eq-false (is_business_date current) f)
        h1
    where
      go :
          (t : Option ℕ)
          → calendar.parse (midnight_text current) ≡ t
          → is_business_date current ≡ true
          → bind (iso_of calendar t) (λ day.
            if not (business_date day === current)
            then throw "Business-date cursor is not a calendar date"
            else day_from calendar key current (or_empty job.window_end) t)
            ≡ ok r
          → Good
      go none e f i = cc
      go (some t) e f i =
          let (a, s, h2) = bind-eq-ok (calendar.iso t) _ i in
          let (m, h3) = if-throw (not (business_date a === current)) _ _ h2 in
          let (a', s', h4) = bind-eq-ok (calendar.iso t) _ h3 in
          let (b, s2, h5) = bind-eq-ok (calendar.iso (t + day_ms)) _ h4 in
          let same : a' ≡ a = cc in
          let given : r ≡ day_result key current (or_empty job.window_end) a b = cc in
          IsWindow.day key current a b t n k c f
            (===→eq (business_date a) current (not-eq-false (business_date a === current) m)) e s s2
            (subst (IsDay key current (or_empty job.window_end) a b) (sym given)
              (day_result-IsDay key current (or_empty job.window_end) a b))

  business_cursor-Good :
      (key : String) (v : Value)
      → business_key job op ≡ str key
      → is_registered_key op key ≡ true
      → or_else_value
          (field_of job.cursor "businessDate")
          (str (business_date (or_empty job.window_start)))
        ≡ v
      → business_cursor calendar key job v ≡ ok r
      → Good
  unfolding business_cursor
  business_cursor-Good key (str current) n k c h = business_day-Good key current n k c h
  business_cursor-Good key v n k c h = cc

  business_window-Good :
      (key : String)
      → business_key job op ≡ str key
      → business_window calendar job op key ≡ ok r
      → Good
  unfolding business_window
  business_window-Good key n h =
      let (k, h1) = if-throw (not (is_registered_key op key)) _ _ h in
      elim (Bool-cases (not (is_undefined (field_of job.parameters key)))) [
        | inl x ↦
            let same : ok (empty_window job) ≡ ok r = rw x at h1 in
            IsWindow.named key n (not-eq-false (is_registered_key op key) k) (not-eq-true _ x)
              (empty_window-IsWhole job r same)
        | inr x ↦
            let (_, h2) =
              if-throw (not (is_set job.window_start) || not (is_set job.window_end)) _ _
                (rw x at h1) in
            business_cursor-Good key
              (or_else_value (field_of job.cursor "businessDate")
                (str (business_date (or_empty job.window_start))))
              n (not-eq-false (is_registered_key op key) k) refl h2
      ]

  keyed_window-Good :
      (v : Value) → business_key job op ≡ v → keyed_window calendar job op now v ≡ ok r → Good
  unfolding keyed_window
  keyed_window-Good null n h = plain_window-Good h
  keyed_window-Good (str key) n h = business_window-Good key n h
  keyed_window-Good v n h = cc

  -- A window that is resolved is the job's own with no parameter, if the operation requires no
  -- window, the job has explicit parameters or one under its business-date key; or one business
  -- date under a registered key, the cursor's or the window's first, whose text is that of the
  -- midnight it names, up to 24 hours later, and which names the next date exactly if it is before
  -- the date of the window's end; or a slice under registered keys from the time at the cursor or
  -- at the start, that goes forward to the window's end or 28 days on, whichever is first, and
  -- names the next slice's start exactly if it has not reached the end; the end is the job's, or
  -- the time now under the policy of the first business date.
  pub resolve_window-IsWindow :
      resolve_window calendar job op now ≡ ok r → IsWindow calendar job op now r
  unfolding resolve_window
  resolve_window-IsWindow h =
      let (_, h1) = if-throw (not (only_keys allowed_cursor job.cursor)) _ _ h in
      keyed_window-Good (business_key job op) refl h1
