-- ===== src/Js/Text/Length.antt =====
-- Lengths of texts, and of the texts that a pattern admits.
use mathlib.Core.List.{[]}
use Prim.Native.Char.{code}
use Prim.Native.String
use text.Mathlib.TextLemmas.{nil-append, cons-append}
use mo_xx.Shared.{
  ◌∷◌, List, ℕ, ◌+◌, ◌≤◌, ◌<◌, String, true, arith, length, All, &&-eq-true, ◌++◌, ◌≡◌, refl,
}
use mo_xx.Js.Text.{
  exactly, utf16_length, Class, version, admits, matches, uuid_pattern, uuid_head, uuid_tail,
  is_uuid, is_uuid_v5,
}

pub utf16_length-append :
    (s t : String) → utf16_length (String.◌++◌ s t) ≡ utf16_length s + utf16_length t
unfolding utf16_length
utf16_length-append String.[] t = rw nil-append (omega arith)
utf16_length-append (String.◌∷◌ c s) t = rw cons-append (omega (arith, utf16_length-append s t))

abbrev IsAscii : Class → Type 0
IsAscii (version n) = n < 128
IsAscii (exactly n) = n < 128
IsAscii _ = Unit

-- The classes admit letters, digits and the dash alone.
admits-ascii : (p : Class) (c : ℕ) → IsAscii p → admits p c ≡ true → c < 128
unfolding admits
admits-ascii (version n) c k h = ground arith
admits-ascii (exactly n) c k h = ground arith
admits-ascii _ c k h = ground arith

pub matches-length :
    (ps : List Class) (s : String)
    → All IsAscii ps
    → matches ps s ≡ true
    → utf16_length s ≡ length ps
unfolding matches utf16_length
matches-length [] String.[] k h = refl
matches-length [] (String.◌∷◌ c s) k h = cc
matches-length (p ∷ ps) String.[] k h = cc
matches-length (p ∷ ps) (String.◌∷◌ c s) (k, ks) h =
    let (here, rest) = &&-eq-true (admits p (code c)) (matches ps s) h in
    ground (arith, admits-ascii p (code c) k here, matches-length ps s ks rest)

pub is_uuid-length : (s : String) → is_uuid s ≡ true → utf16_length s ≡ 36
unfolding is_uuid
is_uuid-length s h = matches-length (uuid_pattern b'8') s (omega arith) h

-- A version up to 5 is a version up to 8.
matches-widen :
    (a b : ℕ) (ps qs : List Class) (s : String)
    → a ≤ b
    → matches (ps ++ version a ∷ qs) s ≡ true
    → matches (ps ++ version b ∷ qs) s ≡ true
unfolding matches
matches-widen a b [] qs String.[] k h = cc
matches-widen a b [] qs (String.◌∷◌ c s) k h = ground arith
matches-widen a b (p ∷ ps) qs String.[] k h = cc
matches-widen a b (p ∷ ps) qs (String.◌∷◌ c s) k h = ground (arith, matches-widen a b ps qs s k)

pub is_uuid_of_v5 : (s : String) → is_uuid_v5 s ≡ true → is_uuid s ≡ true
unfolding is_uuid is_uuid_v5
is_uuid_of_v5 s h = matches-widen b'5' b'8' uuid_head uuid_tail s (omega arith) h
