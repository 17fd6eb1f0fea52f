-- ===== src/Js/Text/Number.antt =====
-- `Number(v)` where it is a natural number; `none` is NaN or another number.
use Prim.Native.Char.{code}
use Prim.Native.String.{[], ◌∷◌}
use arcops.Prelude.{
  ℕ, ◌+◌, ◌-◌, ◌*◌, String, ◌≡◌, refl, ◌&&◌, Option, none, some, leb, if◌then◌else◌,
}
use arcops.Js.Text.{trim}

all_digits : ℕ → String → Option ℕ
all_digits n [] = some n
all_digits n (c ∷ s) =
    if leb 48 (code c) && leb (code c) 57 then all_digits (n * 10 + (code c - 48)) s else none

unfoldable pub number_of_text : String → Option ℕ
unfolding all_digits trim
number_of_text s = all_digits 0 (trim s)

number_test : number_of_text " 42 " ≡ some 42
unfolding number_of_text
number_test = refl
