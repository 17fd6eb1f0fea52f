-- ===== src/Js/Text/Utf8.antt =====
-- UTF-8: the bytes of a character, and the decoder of the Encoding Standard, which puts U+FFFD where
-- the bytes are not those of a character.
use Prim.Native.Char.{Char, char, code, IsScalar}
use Prim.Native.String.{[], ◌∷◌}
use native.Mathlib.Decide.{dec_lt}
use text.Mathlib.TextEquality.{Char-path}
use mathlib.Core.Logic.{dite}
use arcops.Prelude.{
  ℕ, zero, suc, ◌+◌, ◌-◌, ◌*◌, ◌/◌, ◌%◌, ◌<◌, String, ◌≡◌, ◌≤◌, refl, ap, ◌∙◌, List, [], ◌∷◌, ◌++◌,
  ltb, leb, eqb, ◌&&◌, if◌then◌else◌, Bool-cases, inl, inr, arith,
}
use arcops.Js.Text.Chars.{IsScalar-of_lt}

IsScalar-of_high : (n : ℕ) → 57343 < n → n < 1114112 → IsScalar n
IsScalar-of_high n h k = ground arith

-- The character of a code point; U+FFFD where there is none.
to_char : ℕ → Char
unfolding dec_lt IsScalar-of_high
to_char n =
    dite (dec_lt n 55296) (λ h. char n (IsScalar-of_lt n h))
      (λ _.
        dite (dec_lt 57343 n)
          (λ h. dite (dec_lt n 1114112) (λ k. char n (IsScalar-of_high n h k)) (λ _. "�"))
          (λ _. "�"))

-- The bytes of a code point.
unfoldable pub utf_8_bytes : ℕ → List ℕ
utf_8_bytes n =
    if ltb n 0x80
    then n ∷ []
    else if ltb n 0x800
    then (0xc0 + n / 64) ∷ (0x80 + n % 64) ∷ []
    else if ltb n 0x10000
    then (0xe0 + n / 4096) ∷ (0x80 + n / 64 % 64) ∷ (0x80 + n % 64) ∷ []
    else (0xf0 + n / 262144) ∷ (0x80 + n / 4096 % 64) ∷ (0x80 + n / 64 % 64) ∷ (0x80 + n % 64) ∷ []

-- Between two characters, or behind the first bytes of one: how many more there are than the next
-- one, the bounds of the next one, and the code point so far.
pub data State : Type 0 where
  start : State
  inside : ℕ → ℕ → ℕ → ℕ → State

-- What a byte between two characters gives: code points, and the state behind it.
lead : ℕ → List ℕ × State
lead b =
    if ltb b 0x80
    then (b ∷ [], start)
    else if leb 0xc2 b && leb b 0xdf
    then ([], inside 0 0x80 0xbf (b - 0xc0))
    else if leb 0xe0 b && leb b 0xef
    then (
      [],
      inside 1 (if eqb b 0xe0 then 0xa0 else 0x80) (if eqb b 0xed then 0x9f else 0xbf) (b - 0xe0),
    )
    else if leb 0xf0 b && leb b 0xf4
    then (
      [],
      inside 2 (if eqb b 0xf0 then 0x90 else 0x80) (if eqb b 0xf4 then 0x8f else 0xbf) (b - 0xf0),
    )
    else (0xfffd ∷ [], start)

follow : ℕ → ℕ → List ℕ × State
follow zero n = (n ∷ [], start)
follow (suc more) n = ([], inside more 0x80 0xbf n)

unfoldable step : State → ℕ → List ℕ × State
unfolding lead follow
step start b = lead b
step (inside more low high n) b =
    if leb low b && leb b high
    then follow more (n * 64 + (b - 0x80))
    else (0xfffd ∷ (lead b).0, (lead b).1)

-- The code points of bytes.
unfoldable code_points : State → List ℕ → List ℕ
unfolding step
code_points start [] = []
code_points (inside more low high n) [] = 0xfffd ∷ []
code_points s (b ∷ bs) = (step s b).0 ++ code_points (step s b).1 bs

text_of : List ℕ → String
unfolding to_char
text_of [] = ""
text_of (n ∷ ns) = to_char n ∷ text_of ns

unfoldable pub utf_8_decode : List ℕ → String
unfolding code_points text_of
utf_8_decode bs = text_of (code_points start bs)

to_char-code : (c : Char) → to_char (code c) ≡ c
unfolding to_char
to_char-code (char n p) = ground (arith, Char-path (to_char n) (char n p))

code_points-step :
    (s : State) (b : ℕ) (bs out : List ℕ) (t : State)
    → step s b ≡ (out, t)
    → code_points s (b ∷ bs) ≡ out ++ code_points t bs
unfolding code_points
code_points-step start b bs out t h = rw h refl
code_points-step (inside more low high n) b bs out t h = rw h refl

module _ (n : ℕ) where
  lead_of_one : n < 128 → step start n ≡ (n ∷ [], start)
  unfolding step
  lead_of_one h = ground arith

  lead_of_two : 128 ≤ n → n < 2048 → step start (0xc0 + n / 64) ≡ ([], inside 0 0x80 0xbf (n / 64))
  unfolding step
  lead_of_two h k = ground arith

  last : step (inside 0 0x80 0xbf (n / 64)) (0x80 + n % 64) ≡ (n ∷ [], start)
  unfolding step
  last = ground arith

  lead_of_three :
      2048 ≤ n
      → n < 0x10000
      → step start (0xe0 + n / 4096) ≡ (
        [],
        inside 1
            (if eqb (n / 4096) 0 then 0xa0 else 0x80)
            (if eqb (n / 4096) 13 then 0x9f else 0xbf)
            (n / 4096),
      )
  unfolding step
  lead_of_three h k = ground arith

  second_of_three :
      2048 ≤ n
      → n < 0x10000
      → IsScalar n
      → step
          (inside 1
            (if eqb (n / 4096) 0 then 0xa0 else 0x80)
            (if eqb (n / 4096) 13 then 0x9f else 0xbf)
            (n / 4096))
          (0x80 + n / 64 % 64)
        ≡ ([], inside 0 0x80 0xbf (n / 64))
  unfolding step
  second_of_three h k p = ground arith

  lead_of_four :
      0x10000 ≤ n
      → n < 1114112
      → step start (0xf0 + n / 262144) ≡ (
        [],
        inside 2
            (if eqb (n / 262144) 0 then 0x90 else 0x80)
            (if eqb (n / 262144) 4 then 0x8f else 0xbf)
            (n / 262144),
      )
  unfolding step
  lead_of_four h k = ground arith

  second_of_four :
      0x10000 ≤ n
      → n < 1114112
      → step
          (inside 2
            (if eqb (n / 262144) 0 then 0x90 else 0x80)
            (if eqb (n / 262144) 4 then 0x8f else 0xbf)
            (n / 262144))
          (0x80 + n / 4096 % 64)
        ≡ ([], inside 1 0x80 0xbf (n / 4096))
  unfolding step
  second_of_four h k = ground arith

  third_of_four :
      step (inside 1 0x80 0xbf (n / 4096)) (0x80 + n / 64 % 64) ≡ ([], inside 0 0x80 0xbf (n / 64))
  unfolding step
  third_of_four = ground arith

  module _ (bs : List ℕ) where
    code_points-last :
        code_points (inside 0 0x80 0xbf (n / 64)) ((0x80 + n % 64) ∷ bs) ≡ n ∷ code_points start bs
    code_points-last = code_points-step _ _ bs (n ∷ []) start last

    code_points-bytes :
        IsScalar n → code_points start (utf_8_bytes n ++ bs) ≡ n ∷ code_points start bs
    unfolding utf_8_bytes
    code_points-bytes p = elim (Bool-cases (ltb n 0x80)) [
      | inl a ↦ rw a (code_points-step start n bs (n ∷ []) start (lead_of_one (ground arith)))
      | inr a ↦ rw a (elim (Bool-cases (ltb n 0x800)) [
        | inl b ↦ rw b (
            code_points-step start _ _ [] _ (lead_of_two (ground arith) (ground arith))
            ∙ code_points-last)
        | inr b ↦ rw b (elim (Bool-cases (ltb n 0x10000)) [
          | inl c ↦ rw c (
              code_points-step start _ _ [] _ (lead_of_three (ground arith) (ground arith))
              ∙ (code_points-step _ _ _ [] _ (second_of_three (ground arith) (ground arith) p)
                  ∙ code_points-last))
          | inr c ↦ rw c (
              code_points-step start _ _ [] _ (lead_of_four (ground arith) (ground arith))
              ∙ (code_points-step _ _ _ [] _ (second_of_four (ground arith) (ground arith))
                  ∙ (code_points-step _ _ _ [] _ third_of_four ∙ code_points-last)))
        ])
      ])
    ]

-- The bytes of a text.
unfoldable pub utf_8_encode : String → List ℕ
unfolding utf_8_bytes
utf_8_encode [] = []
utf_8_encode (c ∷ s) = utf_8_bytes (code c) ++ utf_8_encode s

IsScalar-code : (c : Char) → IsScalar (code c)
IsScalar-code (char n p) = p

-- A text is read back from its bytes.
pub utf_8_decode-utf_8_encode : (s : String) → utf_8_decode (utf_8_encode s) ≡ s
unfolding utf_8_decode utf_8_encode
utf_8_decode-utf_8_encode [] = refl
utf_8_decode-utf_8_encode (c ∷ s) =
    rw (code_points-bytes (code c) (utf_8_encode s) (IsScalar-code c))
      (rw (to_char-code c) (ap (λ r. c ∷ r) (utf_8_decode-utf_8_encode s)))

decode_test : utf_8_decode (0xe2 ∷ 0x82 ∷ 0xac ∷ 0xe2 ∷ 0x41 ∷ 0xff ∷ []) ≡ "€�A�"
unfolding utf_8_decode
decode_test = refl
