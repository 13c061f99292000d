-- ===== src/Toast/Spans.antt =====
-- The texts between which resolveWindow cuts a longer window.
use mathlib.Core.Option.{none}
use mo_xx.Square.Types.{or_empty}
use mo_xx.Toast.Jobs.{first_date, text_or_null, end_value, initial_start, or_else_value, is_set}
use mo_xx.Toast.{RegisteredOperation, ClaimedJob}
use mo_xx.Shared.{
  ◌∙◌, Option-cases, ◌⊎◌, subst, false, inr, inl, Bool-cases, some, refl, Option, true, ◌≡◌, not,
  String,
}
use mo_xx.Js.Value.{undefined, strict_eq, field_of, Value, null, str}

-- A value that `??` passes over.
abbrev pub IsAbsent : Value → Type 0
IsAbsent v = (v ≡ undefined) ⊎ (v ≡ null)

-- The text that a longer window starts at: the cursor's, or the first one of the job, which under the
-- policy of the first business date is the operation's.
pub data StartsFrom (job : ClaimedJob) (op : RegisteredOperation) : String → Type 0 where
  at_cursor : (s : String) → field_of job.cursor "window_start" ≡ str s → StartsFrom job op s
  at_start :
      (s : String)
      → IsAbsent (field_of job.cursor "window_start")
      → strict_eq (field_of job.parameters "window_policy") (str "first_business_date") ≡ false
      → job.window_start ≡ some s
      → StartsFrom job op s
  at_first_date :
      (s : String)
      → IsAbsent (field_of job.cursor "window_start")
      → strict_eq (field_of job.parameters "window_policy") (str "first_business_date") ≡ true
      → first_date op.first_business_date ≡ str s
      → StartsFrom job op s

-- The text that it ends at: the job's, or under that policy the time now.
pub data EndsAt (job : ClaimedJob) (now : String) : String → Type 0 where
  at_end : (s : String) → job.window_end ≡ some s → EndsAt job now s
  at_now :
      job.window_end ≡ none
      → strict_eq (field_of job.parameters "window_policy") (str "first_business_date") ≡ true
      → EndsAt job now now

or_else_value-text :
    (v d : Value) (s : String)
    → or_else_value v d ≡ str s
    → (v ≡ str s) ⊎ (IsAbsent v × (d ≡ str s))
or_else_value-text undefined d s h = inr (inl refl, h)
or_else_value-text null d s h = inr (inr refl, h)
or_else_value-text v d s h = inl h

text_or_null-text : (o : Option String) (s : String) → text_or_null o ≡ str s → o ≡ some s
text_or_null-text none s h = cc
text_or_null-text (some t) s h = cc

pub start-StartsFrom :
    (job : ClaimedJob) (op : RegisteredOperation) (s : String)
    → or_else_value
        (field_of job.cursor "window_start")
        (initial_start job op (field_of job.parameters "window_policy"))
      ≡ str s
    → StartsFrom job op s
start-StartsFrom job op s h = elim (or_else_value-text (field_of job.cursor "window_start") _ s h) [
  | inl e ↦ StartsFrom.at_cursor s e
  | inr (a, d) ↦
      elim (Bool-cases
        (strict_eq (field_of job.parameters "window_policy") (str "first_business_date"))) [
          | inl p ↦ StartsFrom.at_first_date s a p (rw p at d)
          | inr p ↦ StartsFrom.at_start s a p (text_or_null-text job.window_start s (rw p at d))
        ]
]

pub end_value-EndsAt :
    (job : ClaimedJob) (now s : String)
    → end_value job (field_of job.parameters "window_policy") now ≡ some s
    → EndsAt job now s
end_value-EndsAt job now s h = elim (Option-cases job.window_end) [
  | inr (t, e) ↦ EndsAt.at_end s (let h' = rw e at h in e ∙ h')
  | inl e ↦
      elim (Bool-cases
        (strict_eq (field_of job.parameters "window_policy") (str "first_business_date"))) [
          | inl p ↦ ends_now (some-inj (rw (e, p) at h)) e p
          | inr p ↦ (let off : none ≡ some s = rw (e, p) at h in cc)
        ]
]
  where
    some-inj : {a b : String} → some a ≡ some b → a ≡ b
    some-inj q = cc

    ends_now :
        now ≡ s
        → job.window_end ≡ none
        → strict_eq (field_of job.parameters "window_policy") (str "first_business_date") ≡ true
        → EndsAt job now s
    ends_now same e p = subst (EndsAt job now) same (EndsAt.at_now e p)

pub set-or_empty : (e : Option String) → not (is_set e) ≡ false → e ≡ some (or_empty e)
set-or_empty none h = cc
set-or_empty (some s) h = refl
