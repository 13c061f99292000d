-- ===== src/Toast/Run.antt =====
-- The windows of a job one after the other: each resolution stands at the cursor that the one before
-- it gave, as process_page.ts and continue_job.ts hand it on when no page is left.
use Prim.Native.Nat.{zero}
use mathlib.Core.Option.{none}
use mo_xx.Toast.Window.{resolve_window}
use mo_xx.Js.Check.{bind, ok, Exc}
use mo_xx.Square.Types.{or_empty}
use mo_xx.Toast.Dates.{Calendar}
use mo_xx.Toast.{RegisteredOperation, WindowResolution, ClaimedJob}
use mo_xx.Shared.{suc, none, [], ◌∷◌, ℕ, some, Option, String, List}
use mo_xx.Js.Value.{Fields}

abbrev pub at_cursor : ClaimedJob → Fields → ClaimedJob
at_cursor job c = record job { cursor = c }

abbrev pub coverage_of : WindowResolution → String × String
coverage_of r = (or_empty r.coverage_start, or_empty r.coverage_end)

abbrev pub put_first :
    String × String → Option (List (String × String)) → Option (List (String × String))
put_first c none = none
put_first c (some l) = some (c ∷ l)

module _ (calendar : Calendar) (op : RegisteredOperation) (now : String) where
  -- what follows a window: nothing, or the windows from its cursor on
  abbrev pub windows_after :
      (Fields → Exc (Option (List (String × String))))
      → WindowResolution
      → Option Fields
      → Exc (Option (List (String × String)))
  windows_after again r none = ok (some (coverage_of r ∷ []))
  windows_after again r (some c) = bind (again c) λ l. ok (put_first (coverage_of r) l)

  -- the spans that the windows cover; none without fuel
  unfoldable pub windows : ℕ → ClaimedJob → Exc (Option (List (String × String)))
  unfolding resolve_window
  windows zero job = ok none
  windows (suc fuel) job =
      bind (resolve_window calendar job op now)
        λ r. windows_after (λ c. windows fuel (at_cursor job c)) r r.next_cursor
