-- ===== src/Toast/Dates.antt =====
-- Texts of dates, and the moments that they name: milliseconds from the first that a `Date` can hold.
-- What `new Date` reads and `toISOString` writes is a parameter.
use mathlib.Core.Option.{none}
use mo_xx.Js.Text.{digit}
use Prim.Native.Nat.{zero}
use mo_xx.Js.Check.{throw, Exc}
use mo_xx.Js.Text.{matches}
use Prim.Native.String
use Prim.Native.Char.{code}
use mo_xx.Shared.{
  ◌||◌, some, ◌==◌, ◌===◌, replicate, ◌*◌, suc, if◌then◌else◌, Bool, ℕ, String, Option,
}

pub record Calendar : Type 0 where
  -- `new Date(text).getTime()`, if it is no NaN
  pub parse : String → Option ℕ
  -- `toISOString`
  pub iso : ℕ → Exc String

abbrev pub day_ms : ℕ
day_ms = 86400000

-- the longest window that a request may have
abbrev pub slice_ms : ℕ
slice_ms = 28 * day_ms

-- the first `n` characters
unfoldable pub take_text : ℕ → String → String
take_text zero s = ""
take_text (suc n) String.[] = ""
take_text (suc n) (String.◌∷◌ c s) = String.◌∷◌ c (take_text n s)

unfoldable pub drop_text : ℕ → String → String
drop_text zero s = s
drop_text (suc n) String.[] = ""
drop_text (suc n) (String.◌∷◌ c s) = drop_text n s

-- `replaceAll("-", "")`
unfoldable pub without_dashes : String → String
without_dashes String.[] = ""
without_dashes (String.◌∷◌ c s) =
    let rest = without_dashes s in if code c == b'-' then rest else String.◌∷◌ c rest

-- `text.slice(0, 10).replaceAll("-", "")`
unfoldable pub business_date : String → String
unfolding take_text without_dashes
business_date s = without_dashes (take_text 10 s)

-- `s.endsWith(suffix)`
unfoldable pub ends_with : String → String → Bool
ends_with suffix String.[] = suffix === ""
ends_with suffix (String.◌∷◌ c s) =
    let rest = ends_with suffix s in (String.◌∷◌ c s === suffix) || rest

-- /^[0-9]{8}$/
unfoldable pub is_business_date : String → Bool
unfolding matches
is_business_date s = matches (replicate 8 digit) s

-- the midnight that a business date names, as a text
unfoldable pub midnight_text : String → String
unfolding take_text drop_text
midnight_text s = String.◌++◌ (take_text 4 s) (
    String.◌++◌ "-" (
      String.◌++◌ (take_text 2 (drop_text 4 s))
        (String.◌++◌ "-" (String.◌++◌ (drop_text 6 s) "T00:00:00.000Z"))))

-- `toISOString` of what `new Date` gives, which throws on an invalid date
abbrev pub iso_of : Calendar → Option ℕ → Exc String
iso_of calendar none = throw "RangeError"
iso_of calendar (some t) = calendar.iso t
