-- ===== src/Js/Text/Uri/RoundTrip.antt =====
-- A query reads back what `encodeURIComponent` wrote into it.
use Prim.Native.Char.{Char, char, code}
use Prim.Native.String.{[], ◌∷◌, ◌++◌ as str_append}
use text.Mathlib.TextLemmas.{nil-append, cons-append, append_assoc as str_append_assoc}
use arcops.Prelude.{
  ℕ, ◌+◌, ◌*◌, ◌/◌, ◌%◌, ◌<◌, String, ◌≡◌, refl, sym, ap, ◌∙◌, [], ◌∷◌, ◌++◌, append-nil, some,
  true, false, ltb, eqb, Bool-cases, inl, inr, arith,
}
use arcops.Js.Text.Chars.{upper_char, hex_char}
use arcops.Js.Text.Utf8.{utf_8_bytes, utf_8_encode, utf_8_decode, utf_8_decode-utf_8_encode}
use arcops.Js.Text.Query.{hex_value, percent_decode, decoded}
use arcops.Js.Text.Uri.{is_unreserved, percent, utf_8, encode_uri_component}

percent_decode-plain :
    (c : Char) (s : String)
    → eqb (code c) b'%' ≡ false
    → eqb (code c) b'+' ≡ false
    → percent_decode (c ∷ s) ≡ utf_8_bytes (code c) ++ percent_decode s
unfolding percent_decode
percent_decode-plain c [] h k = rw k (sym (append-nil (utf_8_bytes (code c))))
percent_decode-plain c (d ∷ []) h k = rw k refl
percent_decode-plain c (d ∷ e ∷ s) h k = rw (h, k) refl

percent_decode-hex :
    (d e : Char) (s : String) (h l : ℕ)
    → hex_value (code d) ≡ some h
    → hex_value (code e) ≡ some l
    → percent_decode ("%" ∷ d ∷ e ∷ s) ≡ (16 * h + l) ∷ percent_decode s
unfolding percent_decode
percent_decode-hex d e s h l p q = rw (p, q) refl

hex_value-hex_char : (n : ℕ) → hex_value (code (upper_char (hex_char n))) ≡ some (n % 16)
unfolding hex_value hex_char upper_char
hex_value-hex_char n = ground arith

percent-append :
    (b : ℕ) (s : String)
    → str_append (percent b) s ≡ "%" ∷ upper_char (hex_char (b / 16)) ∷ upper_char (hex_char b) ∷ s
unfolding percent
percent-append b s =
    let d = upper_char (hex_char (b / 16)) in
    let e = upper_char (hex_char b) in
    ap (λ r. str_append r s)
      (cons-append "%" "" (d ∷ e ∷ "") ∙ ap (λ r. "%" ∷ r) (nil-append (d ∷ e ∷ "")))
    ∙ (cons-append "%" (d ∷ e ∷ "") s
        ∙ ap (λ r. "%" ∷ r)
            (cons-append d (e ∷ "") s
              ∙ ap (λ r. d ∷ r) (cons-append e "" s ∙ ap (λ r. e ∷ r) (nil-append s))))

percent_decode-percent :
    (b : ℕ) (s : String)
    → b < 256
    → percent_decode (str_append (percent b) s) ≡ b ∷ percent_decode s
percent_decode-percent b s h =
    ap percent_decode (percent-append b s)
    ∙ (percent_decode-hex (upper_char (hex_char (b / 16))) (upper_char (hex_char b)) s (b / 16 % 16)
          (b % 16) (hex_value-hex_char (b / 16)) (hex_value-hex_char b)
        ∙ ap (λ k. k ∷ percent_decode s) (omega arith))

more_bytes :
    (a : ℕ) (t s : String)
    → a < 256
    → percent_decode (str_append (str_append (percent a) t) s) ≡ a ∷ percent_decode (str_append t s)
more_bytes a t s h =
    ap percent_decode (str_append_assoc (percent a) t s)
    ∙ percent_decode-percent a (str_append t s) h

two_bytes :
    (a b : ℕ) (s : String)
    → a < 256
    → b < 256
    → percent_decode (str_append (str_append (percent a) (percent b)) s) ≡ a ∷ b ∷ percent_decode s
two_bytes a b s h k =
    more_bytes a (percent b) s h ∙ ap (λ bs. a ∷ bs) (percent_decode-percent b s k)

module _ (n : ℕ) (s : String) (small : n < 1114112) where
  percent_decode-utf_8 : percent_decode (str_append (utf_8 n) s) ≡ utf_8_bytes n ++ percent_decode s
  unfolding utf_8 utf_8_bytes
  percent_decode-utf_8 = elim (Bool-cases (ltb n 0x80)) [
    | inl a ↦ rw a (percent_decode-percent n s (ground arith))
    | inr a ↦ rw a (elim (Bool-cases (ltb n 0x800)) [
      | inl b ↦ rw b (two_bytes (0xc0 + n / 64) (0x80 + n % 64) s (ground arith) (omega arith))
      | inr b ↦ rw b (elim (Bool-cases (ltb n 0x10000)) [
        | inl c ↦ rw c (
            more_bytes (0xe0 + n / 4096)
              (str_append (percent (0x80 + n / 64 % 64)) (percent (0x80 + n % 64))) s (ground arith)
            ∙ ap (λ bs. (0xe0 + n / 4096) ∷ bs)
                (two_bytes (0x80 + n / 64 % 64) (0x80 + n % 64) s (omega arith) (omega arith)))
        | inr c ↦ rw c (
            more_bytes (0xf0 + n / 262144)
              (str_append (percent (0x80 + n / 4096 % 64))
                (str_append (percent (0x80 + n / 64 % 64)) (percent (0x80 + n % 64))))
              s (ground arith)
            ∙ ap (λ bs. (0xf0 + n / 262144) ∷ bs)
                (more_bytes (0x80 + n / 4096 % 64)
                    (str_append (percent (0x80 + n / 64 % 64)) (percent (0x80 + n % 64))) s
                    (omega arith)
                  ∙ ap (λ bs. (0x80 + n / 4096 % 64) ∷ bs)
                      (two_bytes (0x80 + n / 64 % 64) (0x80 + n % 64) s (omega arith)
                        (omega arith))))
      ])
    ])
  ]

unreserved-plain :
    (c : Char)
    → is_unreserved c ≡ true
    → (eqb (code c) b'%' ≡ false) × ((eqb (code c) b'+' ≡ false) × (ltb (code c) 0x80 ≡ true))
unfolding is_unreserved
unreserved-plain c h = ground arith

code-lt : (c : Char) → code c < 1114112
code-lt (char n p) = ground arith

percent_decode-encode : (s : String) → percent_decode (encode_uri_component s) ≡ utf_8_encode s
unfolding encode_uri_component utf_8_encode
percent_decode-encode [] = unfold percent_decode in refl
percent_decode-encode (c ∷ s) = elim (Bool-cases (is_unreserved c)) [
  | inl e ↦
      let (p, (q, r)) = unreserved-plain c e in
      rw e (
        ap percent_decode (
          cons-append c "" (encode_uri_component s)
          ∙ ap (λ t. c ∷ t) (nil-append (encode_uri_component s)))
        ∙ (percent_decode-plain c (encode_uri_component s) p q
            ∙ ap (λ bs. utf_8_bytes (code c) ++ bs) (percent_decode-encode s)))
  | inr e ↦ rw e (
      percent_decode-utf_8 (code c) (encode_uri_component s) (code-lt c)
      ∙ ap (λ bs. utf_8_bytes (code c) ++ bs) (percent_decode-encode s))
]

-- What `encodeURIComponent` writes is read back as it was.
pub decoded-encode_uri_component : (s : String) → decoded (encode_uri_component s) ≡ s
unfolding decoded
decoded-encode_uri_component s =
    ap utf_8_decode (percent_decode-encode s) ∙ utf_8_decode-utf_8_encode s
