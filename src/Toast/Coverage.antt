-- ===== src/Toast/Coverage.antt =====
-- What a window that is resolved covers, and that the windows of a job cover its whole span.
use mo_xx.Js.Keys.{text_lt}
use mo_xx.Toast.BusinessDays.{day_result}
use mo_xx.Toast.Jobs.{empty_window, end_key, start_key}
use mo_xx.Js.Check.Inversion.{ok-inj, bind-eq-ok}
use mo_xx.Js.Check.{bind, ok}
use mo_xx.Toast.Slices.{slice_result, slice_window}
use mo_xx.Toast.{ClaimedJob, WindowResolution, RegisteredOperation}
use mo_xx.Toast.Dates.{business_date, slice_ms, Calendar}
use mo_xx.Shared.{
  false, true, refl, inr, inl, ltb, arith, subst, Bool-cases, ◌⊎◌, none, some, ◌+◌, ◌≤◌, min, ◌≡◌,
  ◌<◌, String, ℕ,
}
use mo_xx.Js.Value.{end, str, field}

module _ (calendar : Calendar) (op : RegisteredOperation) where
  -- The slice from `t` on, of a window that ends at `e`: at most 28 days, not past the end, and the
  -- next one is from its own end on, unless that is the window's.
  pub record IsSlice (t e : ℕ) (r : WindowResolution) : Type 0 where
    pub stop : ℕ
    pub start_text : String
    pub stop_text : String
    pub starts : calendar.iso t ≡ ok start_text
    pub stops : calendar.iso stop ≡ ok stop_text
    pub forward : t < stop
    pub within : stop ≤ e
    pub short : stop ≤ t + slice_ms
    pub parameters :
        r.parameters
        ≡ field (start_key op) (str start_text) (field (end_key op) (str stop_text) end)
    pub context : r.cursor_context ≡ field "window_start" (str start_text) end
    pub coverage : (r.coverage_start ≡ some start_text) × (r.coverage_end ≡ some stop_text)
    pub next :
        ((stop ≡ e) × (r.next_cursor ≡ none))
        ⊎ ((stop ≡ t + slice_ms)
            × (stop < e)
            × (r.next_cursor ≡ some (field "window_start" (str stop_text) end)))

  slice_result-IsSlice :
      (t u e : ℕ) (start slice_end : String)
      → t < u
      → u ≤ e
      → u ≤ t + slice_ms
      → (u < e → u ≡ t + slice_ms)
      → calendar.iso t ≡ ok start
      → calendar.iso u ≡ ok slice_end
      → IsSlice t e (slice_result op u e start slice_end)
  slice_result-IsSlice t u e start slice_end a b c d f g = record {
    stop = u;
    start_text = start;
    stop_text = slice_end;
    starts = f;
    stops = g;
    forward = a;
    within = b;
    short = c;
    parameters = refl;
    context = refl;
    coverage = (refl, refl);
    next = elim (Bool-cases (ltb u e)) [
      | inl l ↦ let less : u < e = ground arith in inr (d less, less, rw l refl)
      | inr l ↦ inl (ground arith, rw l refl)
    ];
  }

  pub slice_window-IsSlice :
      (t e : ℕ) (r : WindowResolution) → t < e → slice_window calendar op t e ≡ ok r → IsSlice t e r
  unfolding slice_window
  slice_window-IsSlice t e r p h =
      let u = min e (t + slice_ms) in
      let (start, s, h1) =
        bind-eq-ok (calendar.iso t)
          (λ start. bind (calendar.iso u) λ slice_end. ok (slice_result op u e start slice_end))
          h in
      let (slice_end, f, h2) =
        bind-eq-ok (calendar.iso u) (λ slice_end. ok (slice_result op u e start slice_end)) h1 in
      let same : slice_result op u e start slice_end ≡ r = cc in
      subst (IsSlice t e) same (
        slice_result-IsSlice t u e start slice_end (omega arith) (omega arith) (omega arith)
          (λ q. omega arith) s f)

-- The job's own window, with no parameter and no next one.
pub record IsWhole (job : ClaimedJob) (r : WindowResolution) : Type 0 where
  pub parameters : r.parameters ≡ end
  pub context : r.cursor_context ≡ end
  pub next : r.next_cursor ≡ none
  pub coverage : (r.coverage_start ≡ job.window_start) × (r.coverage_end ≡ job.window_end)

pub empty_window-IsWhole :
    (job : ClaimedJob) (r : WindowResolution) → ok (empty_window job) ≡ ok r → IsWhole job r
empty_window-IsWhole job r h =
    subst (IsWhole job) (ok-inj h)
      (record { parameters = refl; context = refl; next = refl; coverage = (refl, refl) })

-- The window of the date `current` under `key`, from the time `a` to the time `b`; the next date is
-- that of `b`, if it is before the window's end.
pub record IsDay (key current window_end a b : String) (r : WindowResolution) : Type 0 where
  pub parameters : r.parameters ≡ field key (str current) end
  pub context : r.cursor_context ≡ field "businessDate" (str current) end
  pub coverage : (r.coverage_start ≡ some a) × (r.coverage_end ≡ some b)
  pub next :
      ((text_lt (business_date b) (business_date window_end) ≡ true)
        × (r.next_cursor ≡ some (field "businessDate" (str (business_date b)) end)))
      ⊎ ((text_lt (business_date b) (business_date window_end) ≡ false) × (r.next_cursor ≡ none))

pub day_result-IsDay :
    (key current window_end a b : String)
    → IsDay key current window_end a b (day_result key current window_end a b)
unfolding day_result
day_result-IsDay key current window_end a b = record {
  parameters = refl;
  context = refl;
  coverage = (refl, refl);
  next = elim (Bool-cases (text_lt (business_date b) (business_date window_end))) [
    | inl l ↦ inl (l, rw l refl)
    | inr l ↦ inr (l, rw l refl)
  ];
}
