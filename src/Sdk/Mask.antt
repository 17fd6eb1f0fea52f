-- ===== src/Sdk/Mask.antt =====
-- The capability mask of dbmux/sdk/ts/src/index.ts: `parseInt` of the server's header and the
-- bit test of `hasCapability`.
pub mod Bits
pub mod RoundTrip
use Prim.Native.Char.{Char, code}
use Prim.Native.Nat.{bit_and, ◌^◌}
use Prim.Native.String.{[], ◌∷◌}
use arcops.Prelude.{
  ℕ, ◌+◌, ◌-◌, ◌*◌, ◌%◌, String, ◌≡◌, refl, Bool, true, false, not, ◌&&◌, ◌||◌, Option, none, some,
  eqb, leb, if◌then◌else◌,
}
use arcops.Js.Text.{drop_start}
use arcops.Js.Text.Chars.{is_space}

-- `negsuc n` is -(n + 1).
pub data ℤ : Type 0 where
  pos : ℕ → ℤ
  negsuc : ℕ → ℤ

abbrev pub is_digit : Char → Bool
is_digit c = leb 48 (code c) && leb (code c) 57

-- The digits at the front of a text, after those of `acc`.
unfoldable pub scan_digits : ℕ → String → ℕ
scan_digits acc [] = acc
scan_digits acc (c ∷ s) = if is_digit c then scan_digits (acc * 10 + (code c - 48)) s else acc

-- `none` is NaN: no digit at the front.
unfoldable pub parse_digits : String → Option ℕ
unfolding scan_digits
parse_digits [] = none
parse_digits (c ∷ s) = if is_digit c then some (scan_digits (code c - 48) s) else none

abbrev negated : Option ℕ → Option ℤ
negated none = none
negated (some n) = if eqb n 0 then some (pos 0) else some (negsuc (n - 1))

abbrev plain : Option ℕ → Option ℤ
plain none = none
plain (some n) = some (pos n)

signed : String → Option ℤ
unfolding parse_digits
signed [] = none
signed (c ∷ s) =
    if eqb (code c) b'-'
    then negated (parse_digits s)
    else if eqb (code c) b'+'
    then plain (parse_digits s)
    else plain (parse_digits (c ∷ s))

-- `parseInt(s, 10)`
unfoldable pub parse_int : String → Option ℤ
unfolding signed drop_start is_space
parse_int s = signed (drop_start is_space s)

-- The 32 bits that `&` works on.
abbrev pub to_uint32 : ℤ → ℕ
to_uint32 (pos n) = n % 2 ^ 32
to_uint32 (negsuc n) = 2 ^ 32 - 1 - n % 2 ^ 32

abbrev pub is_zero : ℤ → Bool
is_zero (pos n) = eqb n 0
is_zero (negsuc n) = false

-- `1 << k`
abbrev pub cap_postgres : ℕ
cap_postgres = 2 ^ 0

abbrev pub cap_mysql : ℕ
cap_mysql = 2 ^ 1

abbrev pub cap_sqlite : ℕ
cap_sqlite = 2 ^ 2

abbrev pub cap_redis : ℕ
cap_redis = 2 ^ 3

abbrev pub cap_mongo : ℕ
cap_mongo = 2 ^ 4

abbrev pub cap_vector : ℕ
cap_vector = 2 ^ 5

-- The test of `hasCapability`, of the mask and one bit.
unfoldable pub has_bit : ℤ → ℕ → Bool
has_bit mask bit = is_zero mask || not (eqb (bit_and (to_uint32 mask) bit) 0)

parse_test : parse_int " 37x" ≡ some (pos 37)
unfolding parse_int
parse_test = refl

parse_negative_test : parse_int "-5" ≡ some (negsuc 4)
unfolding parse_int
parse_negative_test = refl

bit_test : has_bit (pos 37) cap_sqlite ≡ true
unfolding has_bit
bit_test = refl
