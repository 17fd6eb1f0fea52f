-- ===== src/Js/Text/Decimal.antt =====
-- `String(n)` of a natural number.
use Prim.Native.String.{◌∷◌}
use arcops.Prelude.{ℕ, zero, suc, ◌/◌, String, ◌≡◌, refl, ltb, if◌then◌else◌}
use arcops.Js.Text.Chars.{digit_char}

-- The digits of `n` in front of `rest`; one round of fuel for each digit.
unfoldable pub digits : ℕ → ℕ → String → String
unfolding digit_char
digits zero n rest = rest
digits (suc fuel) n rest =
    let more = digits fuel (n / 10) (digit_char n ∷ rest) in
    if ltb n 10 then digit_char n ∷ rest else more

-- A number has at most as many digits as its value and one.
unfoldable pub decimal : ℕ → String
unfolding digits
decimal n = digits (suc n) n ""

decimal_test : decimal 503 ≡ "503"
unfolding decimal
decimal_test = refl
