-- ===== src/Js/Text.antt =====
-- Texts of JavaScript: their length in UTF-16 units, and the identifiers and codes that the
-- services test by regular expressions.
pub mod Length
use Prim.Native.Char.{code}
use Prim.Native.String
use mo_xx.Shared.{
  ℕ, ◌+◌, String, List, [], ◌∷◌, Bool, true, false, ◌&&◌, ◌||◌, ltb, leb, ◌==◌, if◌then◌else◌, ◌++◌,
  ◌≡◌, refl, replicate,
}

-- `length` of a text: a code point outside the basic plane takes two units
unfoldable pub utf16_length : String → ℕ
utf16_length String.[] = 0
utf16_length (String.◌∷◌ c s) = (if ltb (code c) 65536 then 1 else 2) + utf16_length s

-- A bound on a text's length, as in `s.length >= low && s.length <= high`.
abbrev pub fits : ℕ → ℕ → String → Bool
fits low high s = leb low (utf16_length s) && leb (utf16_length s) high

-- What one place of a pattern admits.
pub data Class : Type 0 where
  hex dash variant upper digit : Class
  exactly : ℕ → Class
  version : ℕ → Class

between : ℕ → ℕ → ℕ → Bool
between low high c = leb low c && leb c high

-- The classes of the patterns that carry the flag `i` hold both cases.
unfoldable pub admits : Class → ℕ → Bool
unfolding between
admits hex c = between b'0' b'9' c || between b'a' b'f' c || between b'A' b'F' c
admits dash c = c == b'-'
admits variant c = between b'8' b'9' c || between b'a' b'b' c || between b'A' b'B' c
admits upper c = between b'A' b'Z' c
admits digit c = between b'0' b'9' c
admits (exactly d) c = c == d
admits (version top) c = between b'1' top c

-- A pattern between `^` and `$`.
unfoldable pub matches : List Class → String → Bool
unfolding admits
matches [] String.[] = true
matches [] (String.◌∷◌ c s) = false
matches (p ∷ ps) String.[] = false
matches (p ∷ ps) (String.◌∷◌ c s) = admits p (code c) && matches ps s

-- /^[0-9a-f]{8}-[0-9a-f]{4}-[1-N][0-9a-f]{3}-[89ab][0-9a-f]{3}-[0-9a-f]{12}$/i
abbrev pub uuid_head : List Class
uuid_head = replicate 8 hex ++ dash ∷ replicate 4 hex ++ dash ∷ []

abbrev pub uuid_tail : List Class
uuid_tail = replicate 3 hex ++ dash ∷ variant ∷ replicate 3 hex ++ dash ∷ replicate 12 hex

abbrev pub uuid_pattern : ℕ → List Class
uuid_pattern top = uuid_head ++ version top ∷ uuid_tail

-- The pattern of the quote, hold, order and status requests, versions 1 to 5.
unfoldable pub is_uuid_v5 : String → Bool
unfolding matches
is_uuid_v5 s = matches (uuid_pattern b'5') s

-- The pattern of the payment requests and of Square's evidence, versions 1 to 8.
unfoldable pub is_uuid : String → Bool
unfolding matches
is_uuid s = matches (uuid_pattern b'8') s

-- /^[A-Z]{3}$/
unfoldable pub is_currency_code : String → Bool
unfolding matches
is_currency_code s = matches (replicate 3 upper) s

-- /^20\d{2}-\d{2}-\d{2}$/
unfoldable pub is_api_version : String → Bool
unfolding matches
is_api_version s =
    matches
      (exactly b'2'
        ∷ exactly b'0'
        ∷ digit
        ∷ digit
        ∷ dash
        ∷ digit
        ∷ digit
        ∷ dash
        ∷ digit
        ∷ digit
        ∷ [])
      s

sample_uuid : is_uuid "0190163d-8694-739b-aea5-966c26f8ad91" ≡ true
unfolding is_uuid
sample_uuid = refl

sample_uuid_v5 : is_uuid_v5 "0190163d-8694-739b-aea5-966c26f8ad91" ≡ false
unfolding is_uuid_v5
sample_uuid_v5 = refl
