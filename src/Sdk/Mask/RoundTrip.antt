-- ===== src/Sdk/Mask/RoundTrip.antt =====
-- `parseInt` reads back the decimal text of a number.
use Prim.Native.String.{[], ◌∷◌}
use text.Mathlib.TextLemmas.{cons≢nil}
use arcops.Prelude.{
  eq_iff, ℕ, zero, suc, ◌+◌, ◌*◌, ◌/◌, ◌%◌, ◌<◌, String, ◌≡◌, refl, ◌∙◌, ap, true, false, some,
  arith, ltb, ◌==◌, Bool-cases, inl, inr,
}
use arcops.Js.Text.{decimal}
use arcops.Js.Text.Decimal.{digits}
use arcops.Js.Text.Chars.{digit_char}
use arcops.Sdk.Mask.{pos, is_digit, scan_digits, parse_int}

is_digit-digit_char : (n : ℕ) → is_digit (digit_char n) ≡ true
unfolding digit_char
is_digit-digit_char n = ground arith

scan_digits-digit :
    (acc n : ℕ) (rest : String)
    → scan_digits acc (digit_char n ∷ rest) ≡ scan_digits (acc * 10 + n % 10) rest
unfolding scan_digits digit_char
scan_digits-digit acc n rest = ground arith

-- Reading the digits of `n` is the same as reading on from `n`.
scan_digits-digits :
    (fuel n : ℕ) (rest : String)
    → n < fuel
    → scan_digits 0 (digits fuel n rest) ≡ scan_digits n rest
unfolding digits
scan_digits-digits zero n rest h = absurd (omega arith)
scan_digits-digits (suc fuel) n rest h = elim (Bool-cases (ltb n 10)) [
  | inl e ↦ rw e (scan_digits-digit 0 n rest ∙ ap (λ k. scan_digits k rest) (ground arith))
  | inr e ↦ rw e (
      scan_digits-digits fuel (n / 10) (digit_char n ∷ rest) (ground arith)
      ∙ (scan_digits-digit (n / 10) n rest ∙ ap (λ k. scan_digits k rest) (omega arith)))
]

abbrev StartsDigit : String → Type 0
StartsDigit [] = ⊥
StartsDigit (c ∷ s) = is_digit c ≡ true

StartsDigit-digits : (fuel n : ℕ) (rest : String) → n < fuel → StartsDigit (digits fuel n rest)
unfolding digits
StartsDigit-digits zero n rest h = absurd (omega arith)
StartsDigit-digits (suc fuel) n rest h = elim (Bool-cases (ltb n 10)) [
  | inl e ↦ rw (e, StartsDigit) (is_digit-digit_char n)
  | inr e ↦
      rw (e, StartsDigit) (StartsDigit-digits fuel (n / 10) (digit_char n ∷ rest) (ground arith))
]

parse_int_of_StartsDigit : (s : String) → StartsDigit s → parse_int s ≡ some (pos (scan_digits 0 s))
unfolding parse_int
parse_int_of_StartsDigit [] h = absurd h
parse_int_of_StartsDigit (c ∷ s) h = ground arith

scan_digits-nil : (n : ℕ) → scan_digits n "" ≡ n
unfolding scan_digits
scan_digits-nil n = refl

-- A mask written in decimal is read back, whatever its size.
pub parse_int-decimal : (n : ℕ) → parse_int (decimal n) ≡ some (pos n)
unfolding decimal
parse_int-decimal n =
    parse_int_of_StartsDigit (digits (suc n) n "") (StartsDigit-digits (suc n) n "" (omega arith))
    ∙ ap (λ k. some (pos k)) (scan_digits-digits (suc n) n "" (omega arith) ∙ scan_digits-nil n)

ne_empty_of_StartsDigit : (s : String) → StartsDigit s → (s == "") ≡ false
ne_empty_of_StartsDigit [] h = absurd h
ne_empty_of_StartsDigit (c ∷ s) h = elim (Bool-cases (c ∷ s == "")) [
  | inl e ↦ absurd (cons≢nil ((eq_iff (c ∷ s) "").0 e))
  | inr e ↦ e
]

pub decimal-ne_empty : (n : ℕ) → (decimal n == "") ≡ false
unfolding decimal
decimal-ne_empty n =
    ne_empty_of_StartsDigit (digits (suc n) n "") (StartsDigit-digits (suc n) n "" (omega arith))
