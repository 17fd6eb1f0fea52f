-- ===== src/Js/Text/Chars.antt =====
-- Single characters: the ASCII letters' other case, digits, white space.
use Prim.Native.Char.{Char, char, code, IsScalar}
use native.Mathlib.Decide.{dec_lt}
use mathlib.Core.Logic.{dite}
use arcops.Prelude.{ℕ, ◌+◌, ◌-◌, ◌%◌, ◌<◌, Bool, ◌&&◌, ◌||◌, arith, leb, eqb, if◌then◌else◌}

pub IsScalar-of_lt : (n : ℕ) → n < 55296 → IsScalar n
IsScalar-of_lt n h = ground arith

unfoldable pub digit_char : ℕ → Char
digit_char n = char (48 + n % 10) (IsScalar-of_lt (48 + n % 10) (omega arith))

unfoldable pub lower_char : Char → Char
unfolding dec_lt
lower_char c =
    dite (dec_lt (code c) 91)
      (λ h.
        if leb 65 (code c)
        then char (code c + 32) (IsScalar-of_lt (code c + 32) (omega arith))
        else c)
      (λ _. c)

unfoldable pub upper_char : Char → Char
unfolding dec_lt
upper_char c =
    dite (dec_lt (code c) 123)
      (λ h.
        if leb 97 (code c)
        then char (code c - 32) (IsScalar-of_lt (code c - 32) (omega arith))
        else c)
      (λ _. c)

-- The white space and line ends that `trim` removes and `\s` matches.
unfoldable pub is_space : Char → Bool
is_space c =
    let n = code c in
    (leb 9 n && leb n 13)
    || eqb n 32
    || eqb n 160
    || eqb n 0x1680
    || (leb 0x2000 n && leb n 0x200a)
    || eqb n 0x2028
    || eqb n 0x2029
    || eqb n 0x202f
    || eqb n 0x205f
    || eqb n 0x3000
    || eqb n 0xfeff

hex_code : ℕ → ℕ
hex_code n = if leb (n % 16) 9 then 48 + n % 16 else 87 + n % 16

hex_code-lt : (n : ℕ) → hex_code n < 55296
unfolding hex_code
hex_code-lt n = ground arith

-- A digit of a hexadecimal escape, below 16.
unfoldable pub hex_char : ℕ → Char
unfolding hex_code hex_code-lt
hex_char n = char (hex_code n) (IsScalar-of_lt (hex_code n) (hex_code-lt n))
