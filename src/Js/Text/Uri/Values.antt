-- ===== src/Js/Text/Uri/Values.antt =====
-- What `encodeURIComponent` and a number in decimal notation put into a query.
use Prim.Native.Char.{Char, code}
use Prim.Native.String.{[], ◌∷◌, ◌++◌ as str_append}
use text.Mathlib.TextLemmas.{nil-append, cons-append}
use arcops.Prelude.{
  ℕ, zero, suc, ◌+◌, ◌/◌, ◌%◌, String, ◌≡◌, refl, sym, ap, ◌∙◌, Bool, true, false, ltb, Bool-cases,
  if◌then◌else◌, inl, inr, arith,
}
use arcops.Js.Text.{decimal}
use arcops.Js.Text.Decimal.{digits}
use arcops.Js.Text.Chars.{upper_char, hex_char, digit_char}
use arcops.Js.Text.Every.{every, every-cons, cons_of_every, every-append, every_mono}
use arcops.Js.Text.Query.{decoded}
use arcops.Js.Text.Query.Pieces.{is_value_char, IsValue}
use arcops.Js.Text.Uri.{is_unreserved, percent, utf_8, encode_uri_component}
use arcops.Js.Text.Uri.RoundTrip.{decoded-encode_uri_component}

unreserved-value : (c : Char) → is_unreserved c ≡ true → is_value_char c ≡ true
unfolding is_unreserved
unreserved-value c h = ground arith

hex_char-value : (n : ℕ) → is_value_char (upper_char (hex_char n)) ≡ true
unfolding hex_char upper_char
hex_char-value n = ground arith

append : (s t : String) → IsValue s → IsValue t → IsValue (str_append s t)
append = every-append is_value_char

percent-IsValue : (b : ℕ) → IsValue (percent b)
unfolding percent
percent-IsValue b =
    append "%" (upper_char (hex_char (b / 16)) ∷ upper_char (hex_char b) ∷ "")
      (unfold every in refl)
      (cons_of_every is_value_char (upper_char (hex_char (b / 16))) (upper_char (hex_char b) ∷ "")
        (hex_char-value (b / 16))
        (cons_of_every is_value_char (upper_char (hex_char b)) "" (hex_char-value b)
          (unfold every in refl)))

if-IsValue : (b : Bool) (s t : String) → IsValue s → IsValue t → IsValue (if b then s else t)
if-IsValue true s t h k = h
if-IsValue false s t h k = k

utf_8-IsValue : (n : ℕ) → IsValue (utf_8 n)
unfolding utf_8
utf_8-IsValue n =
    let p = percent-IsValue in
    let two = append _ _ (p (0x80 + n / 64 % 64)) (p (0x80 + n % 64)) in
    if-IsValue (ltb n 0x80) _ _ (p n) (
      if-IsValue (ltb n 0x800) _ _ (append _ _ (p (0xc0 + n / 64)) (p (0x80 + n % 64))) (
        if-IsValue (ltb n 0x10000) _ _ (append _ _ (p (0xe0 + n / 4096)) two)
          (append _ _ (p (0xf0 + n / 262144)) (append _ _ (p (0x80 + n / 4096 % 64)) two))))

pub IsValue-encode_uri_component : (s : String) → IsValue (encode_uri_component s)
unfolding encode_uri_component
IsValue-encode_uri_component [] = unfold every in refl
IsValue-encode_uri_component (c ∷ s) = elim (Bool-cases (is_unreserved c)) [
  | inl e ↦ rw e (
      every-append is_value_char (c ∷ "") (encode_uri_component s)
        (cons_of_every is_value_char c "" (unreserved-value c e) (unfold every in refl))
        (IsValue-encode_uri_component s))
  | inr e ↦ rw e (
      every-append is_value_char (utf_8 (code c)) (encode_uri_component s) (utf_8-IsValue (code c))
        (IsValue-encode_uri_component s))
]

encode_of_unreserved : (s : String) → every is_unreserved s ≡ true → encode_uri_component s ≡ s
unfolding encode_uri_component
encode_of_unreserved [] h = refl
encode_of_unreserved (c ∷ s) h =
    let (e, t) = every-cons is_unreserved c s h in
    rw e (
      cons-append c "" (encode_uri_component s)
      ∙ ap (λ r. c ∷ r) (nil-append (encode_uri_component s) ∙ encode_of_unreserved s t))

digit_char-unreserved : (n : ℕ) → is_unreserved (digit_char n) ≡ true
unfolding is_unreserved digit_char
digit_char-unreserved n = ground arith

digits-unreserved :
    (fuel n : ℕ) (rest : String)
    → every is_unreserved rest ≡ true
    → every is_unreserved (digits fuel n rest) ≡ true
unfolding digits
digits-unreserved zero n rest h = h
digits-unreserved (suc fuel) n rest h =
    let more = cons_of_every is_unreserved (digit_char n) rest (digit_char-unreserved n) h in
    elim (Bool-cases (ltb n 10)) [
      | inl e ↦ rw e more
      | inr e ↦ rw e (digits-unreserved fuel (n / 10) (digit_char n ∷ rest) more)
    ]

decimal-unreserved : (n : ℕ) → every is_unreserved (decimal n) ≡ true
unfolding decimal
decimal-unreserved n = digits-unreserved (suc n) n "" (unfold every in refl)

pub decimal-IsValue : (n : ℕ) → IsValue (decimal n)
decimal-IsValue n =
    every_mono is_unreserved is_value_char unreserved-value (decimal n) (decimal-unreserved n)

pub decoded-decimal : (n : ℕ) → decoded (decimal n) ≡ decimal n
decoded-decimal n =
    ap decoded (sym (encode_of_unreserved (decimal n) (decimal-unreserved n)))
    ∙ decoded-encode_uri_component (decimal n)
