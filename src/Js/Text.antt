-- ===== src/Js/Text.antt =====
-- String methods: `trim`, `includes`, `startsWith`, `indexOf`, `split`, `toLowerCase`, templates.
-- A text is its code points; letters outside ASCII have no other case here.
pub mod Chars
pub mod Decimal
pub mod Trim
pub mod Number
pub mod Uri
pub mod Empty
pub mod Prefix
pub mod Slash
pub mod Every
pub mod Utf8
pub mod Query
unfoldable pub use Decimal.{decimal}
use Prim.Native.Char.{Char, code}
use Prim.Native.String.{[], ◌∷◌, ◌++◌ as str_append}
use Chars.{is_space, lower_char, upper_char}
use arcops.Prelude.{
  ℕ, String, ◌≡◌, refl, Bool, true, false, ◌||◌, Option, none, some, List, [], ◌∷◌, eqb, ◌==◌,
  if◌then◌else◌,
}

-- A template literal, or a chain of `+` on texts.
abbrev pub template : List String → String
template [] = ""
template (s ∷ ss) = str_append s (template ss)

-- Drop the characters of a class from the left, and from the right.
unfoldable pub drop_start : (Char → Bool) → String → String
drop_start p [] = ""
drop_start p (c ∷ s) = if p c then drop_start p s else c ∷ s

abbrev pub is_nil : String → Bool
is_nil [] = true
is_nil (c ∷ s) = false

abbrev pub keep_or_drop : (Char → Bool) → Char → String → String
keep_or_drop p c [] = if p c then "" else c ∷ ""
keep_or_drop p c (d ∷ s) = c ∷ d ∷ s

unfoldable pub drop_end : (Char → Bool) → String → String
drop_end p [] = ""
drop_end p (c ∷ s) = keep_or_drop p c (drop_end p s)

unfoldable pub trim : String → String
unfolding drop_start drop_end is_space
trim s = drop_end is_space (drop_start is_space s)

-- `s.startsWith(t)`, with what follows
unfoldable pub strip_prefix : String → String → Option String
strip_prefix [] s = some s
strip_prefix (d ∷ t) [] = none
strip_prefix (d ∷ t) (c ∷ s) = if eqb (code c) (code d) then strip_prefix t s else none

abbrev pub is_there : Option String → Bool
is_there none = false
is_there (some s) = true

unfoldable pub starts_with : String → String → Bool
unfolding strip_prefix
starts_with s t = is_there (strip_prefix t s)

unfoldable pub includes : String → String → Bool
unfolding starts_with
includes [] t = is_nil t
includes (c ∷ s) t = starts_with (c ∷ s) t || includes s t

unfoldable pub ends_with : String → String → Bool
ends_with [] t = is_nil t
ends_with (c ∷ s) t = (c ∷ s == t) || ends_with s t

abbrev pub cons_head : Char → List String → List String
cons_head c [] = (c ∷ "") ∷ []
cons_head c (s ∷ ss) = (c ∷ s) ∷ ss

-- `s.split(d)` at a separator of one character
unfoldable pub split : ℕ → String → List String
split d [] = "" ∷ []
split d (c ∷ s) = if eqb (code c) d then "" ∷ split d s else cons_head c (split d s)

unfoldable pub to_lower : String → String
unfolding lower_char
to_lower [] = ""
to_lower (c ∷ s) = lower_char c ∷ to_lower s

unfoldable pub to_upper : String → String
unfolding upper_char
to_upper [] = ""
to_upper (c ∷ s) = upper_char c ∷ to_upper s

-- `ss.join(d)`
unfoldable pub join : String → List String → String
join d [] = ""
join d (s ∷ []) = s
join d (s ∷ t ∷ ss) = template (s ∷ d ∷ join d (t ∷ ss) ∷ [])

-- `s.replace(/\/$/, "")`
unfoldable pub drop_last_slash : String → String
drop_last_slash [] = ""
drop_last_slash (c ∷ []) = if eqb (code c) b'/' then "" else c ∷ ""
drop_last_slash (c ∷ d ∷ s) = c ∷ drop_last_slash (d ∷ s)

trim_test : trim " a b\t" ≡ "a b"
unfolding trim
trim_test = refl

split_test : split b';' "a;;b;" ≡ "a" ∷ "" ∷ "b" ∷ "" ∷ []
unfolding split
split_test = refl

lower_test : to_lower "AbZ-[é" ≡ "abz-[é"
unfolding to_lower
lower_test = refl

includes_test : includes "abcab" "cab" ≡ true
unfolding includes
includes_test = refl
