-- ===== src/Js/World/Session/Token.antt =====
-- A stored token may carry the word "Bearer"; each client cleans it before use.
use Prim.Native.Char.{code}
use Prim.Native.String.{[], ◌∷◌, ◌++◌ as str_append}
use text.Mathlib.TextLemmas.{nil-append, cons-append}
use arcops.Prelude.{String, ◌≡◌, refl, Option, none, some, eqb, if◌then◌else◌}
use arcops.Js.Text.{trim, drop_start}
use arcops.Js.Text.Chars.{lower_char, is_space}
use arcops.Js.Text.Trim.{trim_idem, trim-drop_start}

-- What follows a prefix, given in lower case and compared in any case.
strip_any_case : String → String → Option String
unfolding lower_char
strip_any_case [] s = some s
strip_any_case (d ∷ t) [] = none
strip_any_case (d ∷ t) (c ∷ s) =
    if eqb (code (lower_char c)) (code d) then strip_any_case t s else none

-- At least one white space has to follow.
after_spaces : String → Option String → String
unfolding is_space drop_start
after_spaces s none = s
after_spaces s (some []) = s
after_spaces s (some (c ∷ rest)) = if is_space c then drop_start is_space rest else s

-- `raw.replace(/^Bearer\s+/i, "").trim()`
unfoldable pub clean_token : String → String
unfolding strip_any_case after_spaces trim
clean_token raw = trim (after_spaces raw (strip_any_case "bearer" raw))

-- A clean token has no white space at either end.
pub trim-clean_token : (raw : String) → trim (clean_token raw) ≡ clean_token raw
unfolding clean_token
trim-clean_token raw = trim_idem (after_spaces raw (strip_any_case "bearer" raw))

-- The word "Bearer" and one space before a token make no difference.
pub clean_token-Bearer : (t : String) → clean_token (str_append "Bearer " t) ≡ trim t
unfolding clean_token
clean_token-Bearer t =
    rw
      (
        cons-append, cons-append, cons-append, cons-append, cons-append, cons-append, cons-append,
        nil-append,
      )
      (trim-drop_start t)

clean_token_test : clean_token "bEARER \t abc " ≡ "abc"
unfolding clean_token
clean_token_test = refl
