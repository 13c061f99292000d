-- ===== src/Toast/Tiling.antt =====
-- The windows of a job cover its span without a gap or an overlap.
use Prim.Native.Nat.{zero}
use mo_xx.Toast.Run.{windows, at_cursor}
use mo_xx.Toast.Slices.{slice_result, slice_window, slice_between, complete_window, policy_window}
use mo_xx.Js.Check.{ok}
use mo_xx.Toast.Window.{plain_window, keyed_window, resolve_window}
use mo_xx.Toast.Jobs.{
  single, end_value, has_keys, text_or_null, is_explicit, or_else_value, is_unpaired,
  allowed_cursor, business_key,
}
use mo_xx.Toast.Dates.{slice_ms, Calendar}
use mo_xx.Toast.{RegisteredOperation, ClaimedJob}
use mo_xx.Shared.{
  subst, inr, inl, ltb, Bool-cases, ◌∙◌, min, suc, ◌*◌, refl, ◌||◌, ◌-◌, if◌then◌else◌, not, Option,
  Bool, arith, leb, ◌===◌, [], ◌∷◌, false, some, ◌+◌, true, ◌≡◌, ◌<◌, ◌≤◌, String, ℕ, List,
}
use mo_xx.Js.Value.{strict_eq, field_of, only_keys, Fields, Value, undefined, null, str}

-- Spans that follow one another from `t` to `e`, each of at most 28 days.
pub data Tiles (calendar : Calendar) (e : ℕ) : ℕ → List (String × String) → Type 0 where
  last :
      (t : ℕ) (a b : String)
      → t < e
      → e ≤ t + slice_ms
      → calendar.iso t ≡ ok a
      → calendar.iso e ≡ ok b
      → Tiles calendar e t ((a, b) ∷ [])
  more :
      (t u : ℕ) (a b : String) (l : List (String × String))
      → t < u
      → u ≤ t + slice_ms
      → u < e
      → calendar.iso t ≡ ok a
      → calendar.iso u ≡ ok b
      → Tiles calendar e u l
      → Tiles calendar e t ((a, b) ∷ l)

-- The dates up to `e` can be written, and are read as they were.
abbrev pub IsFaithful : Calendar → ℕ → Type 0
IsFaithful calendar e =
    (t : ℕ) → t ≤ e → (s : String) × (calendar.iso t ≡ ok s) × (calendar.parse s ≡ some t)

-- A job for which the operation takes a window, with an end that can be read, and no parameter or
-- policy that sets one.
pub record IsWindowed (calendar : Calendar) (op : RegisteredOperation) (job : ClaimedJob) (e : ℕ)
    : Type 0 where
  pub end_text : String
  pub no_business_date : business_key job op ≡ null
  pub required : op.requires_window ≡ true
  pub paired : is_unpaired job ≡ false
  pub not_explicit : is_explicit job ≡ false
  pub no_policy : field_of job.parameters "window_policy" ≡ undefined
  pub has_end : job.window_end ≡ some end_text
  pub filled : (end_text === "") ≡ false
  pub read_end : calendar.parse end_text ≡ some e
  pub registered : has_keys op ≡ true

-- A cursor from which the windows of the job go on, at the text of a start.
pub record StartsAt (job : ClaimedJob) (c : Fields) (s : String) : Type 0 where
  pub allowed : only_keys allowed_cursor c ≡ true
  pub no_business_date : field_of c "businessDate" ≡ undefined
  pub start : or_else_value (field_of c "window_start") (text_or_null job.window_start) ≡ str s

if-true-not : {A : Type 0} (b : Bool) (x y : A) → b ≡ true → (if not b then x else y) ≡ y
if-true-not b x y h = rw h refl

module _ (calendar : Calendar) (op : RegisteredOperation) (now : String) (job : ClaimedJob) (e : ℕ)
    (m : IsWindowed calendar op job e) (faithful : IsFaithful calendar e) where
  complete_window-at :
      (v : Value) (o : Option String) (s : String) (t : ℕ)
      → v ≡ str s
      → o ≡ some m.end_text
      → calendar.parse s ≡ some t
      → t < e
      → complete_window calendar op v o ≡ slice_window calendar op t e
  unfolding complete_window slice_between
  complete_window-at v o s t a b p l =
      let later : leb e t ≡ false = ground arith in
      rw (a, b) (rw (m.filled, p, m.read_end, later) (if-true-not (has_keys op) _ _ m.registered))

  policy_window-at :
      (c : Fields) (s : String) (t : ℕ)
      → StartsAt job c s
      → calendar.parse s ≡ some t
      → t < e
      → policy_window calendar (at_cursor job c) op now undefined ≡ slice_window calendar op t e
  unfolding policy_window strict_eq
  policy_window-at c s t i p l =
      complete_window-at (or_else_value (field_of c "window_start") (text_or_null job.window_start))
        (end_value (at_cursor job c) undefined now) s t i.start (rw m.has_end refl) p l

  resolve_window-at :
      (c : Fields) (s : String) (t : ℕ)
      → StartsAt job c s
      → calendar.parse s ≡ some t
      → t < e
      → resolve_window calendar (at_cursor job c) op now ≡ slice_window calendar op t e
  unfolding resolve_window business_key keyed_window plain_window
  resolve_window-at c s t i p l =
      let takes : (not op.requires_window || is_explicit job) ≡ false =
        rw (m.required, m.not_explicit) refl in
      rw (i.allowed, m.no_business_date, i.no_business_date, m.paired, takes, m.no_policy)
        (policy_window-at c s t i p l)

  slice_window-result :
      (t u : ℕ) (a b : String)
      → calendar.iso t ≡ ok a
      → calendar.iso u ≡ ok b
      → u ≡ min e (t + slice_ms)
      → slice_window calendar op t e ≡ ok (slice_result op u e a b)
  unfolding slice_window
  slice_window-result t u a b h k q = rw (← q) (rw (h, k) refl)

  next-StartsAt : (b : String) → StartsAt job (single "window_start" (str b)) b
  unfolding field_of
  next-StartsAt b = record { allowed = refl; no_business_date = refl; start = refl }

  -- For a job that takes windows, has an end that can be read and no parameter or policy that sets
  -- one, on a calendar whose dates up to the end are read as they are written: from a cursor at a
  -- start before the end, with fuel for a window of 28 days each, the resolutions that go on at
  -- one another's cursors come to an end, and cover the span from the start to the end without a
  -- gap or an overlap, in spans of at most 28 days.
  pub windows-Tiles :
      (fuel : ℕ) (c : Fields) (s : String) (t : ℕ)
      → StartsAt job c s
      → calendar.parse s ≡ some t
      → t < e
      → e - t ≤ fuel * slice_ms
      → (l : List (String × String)) × (windows calendar op now fuel (at_cursor job c)
          ≡ ok (some l))
        × Tiles calendar e t l
  unfolding windows
  windows-Tiles zero c s t i p l f = absurd (omega arith)
  windows-Tiles (suc fuel) c s t i p l f =
      let u = min e (t + slice_ms) in
      let (a, writes_a, _) = faithful t (omega arith) in
      let (b, writes_b, reads_b) = faithful u (omega arith) in
      let found =
        resolve_window-at c s t i p l ∙ slice_window-result t u a b writes_a writes_b refl in
      rw found (elim (Bool-cases (ltb u e)) [
        | inl q ↦
            let less : u < e = ground arith in
            let (ws, runs, tiles) =
              windows-Tiles fuel (single "window_start" (str b)) b u (next-StartsAt b) reads_b less
                (omega arith) in
            (
              (a, b) ∷ ws,
              rw q (rw runs refl),
              Tiles.more t u a b ws (omega arith) (omega arith) less writes_a writes_b tiles,
            )
        | inr q ↦
            let same : u ≡ e = ground arith in
            (
              (a, b) ∷ [],
              rw q refl,
              Tiles.last t a b l (omega arith) writes_a
                  (subst (λ x. calendar.iso x ≡ ok b) same writes_b),
            )
      ])
