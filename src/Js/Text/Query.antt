-- ===== src/Js/Text/Query.antt =====
-- `new URLSearchParams(query)`: the names and values of a query.
pub mod Pieces
use Prim.Native.Char.{Char, char, code}
use Prim.Native.String.{[], ◌∷◌, ◌++◌ as str_append}
use arcops.Prelude.{
  ℕ, ◌+◌, ◌-◌, ◌*◌, String, ◌≡◌, refl, List, [], ◌∷◌, ◌++◌, Option, none, some, Bool, leb, eqb,
  ◌&&◌, if◌then◌else◌, ◌==◌,
}
use arcops.Js.Text.{split}
use arcops.Js.Text.Utf8.{utf_8_bytes, utf_8_decode}

-- The value of a hexadecimal digit.
unfoldable pub hex_value : ℕ → Option ℕ
hex_value n =
    if leb b'0' n && leb n b'9'
    then some (n - b'0')
    else if leb b'A' n && leb n b'F'
    then some (n - 55)
    else if leb b'a' n && leb n b'f'
    then some (n - 87)
    else none

abbrev byte_of : Option ℕ → Option ℕ → Option ℕ
byte_of (some h) (some l) = some (16 * h + l)
byte_of (some h) none = none
byte_of none l = none

abbrev or_percent : Option ℕ → List ℕ → List ℕ → List ℕ
or_percent (some b) rest more = b ∷ rest
or_percent none rest more = b'%' ∷ more

-- The bytes of a text in which `+` stands for a blank and `%XX` for a byte.
unfoldable pub percent_decode : String → List ℕ
unfolding hex_value utf_8_bytes
percent_decode [] = []
percent_decode (c ∷ []) = if eqb (code c) b'+' then b' ' ∷ [] else utf_8_bytes (code c)
percent_decode (c ∷ d ∷ []) =
    let more = percent_decode (d ∷ []) in
    if eqb (code c) b'+' then b' ' ∷ more else utf_8_bytes (code c) ++ more
percent_decode (c ∷ d ∷ e ∷ s) =
    let rest = percent_decode s in
    let more = percent_decode (d ∷ e ∷ s) in
    if eqb (code c) b'%'
    then or_percent (byte_of (hex_value (code d)) (hex_value (code e))) rest more
    else if eqb (code c) b'+'
    then b' ' ∷ more
    else utf_8_bytes (code c) ++ more

unfoldable pub decoded : String → String
unfolding percent_decode utf_8_decode
decoded s = utf_8_decode (percent_decode s)

-- What stands in front of the first `=`, and behind it.
unfoldable cut : String → String × String
cut [] = ("", "")
cut (c ∷ s) = let (k, v) = cut s in if eqb (code c) b'=' then ("", s) else (c ∷ k, v)

-- One piece of a query; an empty one is skipped.
unfoldable pub pair_of : String → List (String × String)
unfolding cut decoded
pair_of s = if s == "" then [] else (decoded (cut s).0, decoded (cut s).1) ∷ []

unfoldable pub pairs_of : List String → List (String × String)
unfolding pair_of
pairs_of [] = []
pairs_of (s ∷ ss) = pair_of s ++ pairs_of ss

unfoldable pub search_params : String → List (String × String)
unfolding pairs_of split
search_params query = pairs_of (split b'&' query)

params_test :
    search_params "a=1&&b=x%20y+z=%E2%82%AC&c%" ≡ ("a", "1") ∷ ("b", "x y z=€") ∷ ("c%", "") ∷ []
unfolding search_params
params_test = refl
