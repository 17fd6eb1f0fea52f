-- ===== src/Js/Text/Uri.antt =====
-- `encodeURIComponent`.
pub mod RoundTrip
pub mod Values
use Prim.Native.Char.{Char, code}
use Prim.Native.String.{[], ◌∷◌, ◌++◌ as str_append}
use arcops.Prelude.{ℕ, ◌+◌, ◌/◌, ◌%◌, String, ◌≡◌, refl, Bool, ◌&&◌, ◌||◌, ltb, leb, if◌then◌else◌}
use arcops.Js.Text.{includes}
use arcops.Js.Text.Chars.{upper_char, hex_char}

is_unreserved : Char → Bool
unfolding includes
is_unreserved c =
    let n = code c in
    (leb 97 n && leb n 122)
    || (leb 65 n && leb n 90)
    || (leb 48 n && leb n 57)
    || includes "-_.!~*'()" (c ∷ "")

-- `%XX`
percent : ℕ → String
percent byte = str_append "%" (upper_char (hex_char (byte / 16)) ∷ upper_char (hex_char byte) ∷ "")

-- The bytes of a code point in UTF-8, each as `%XX`.
utf_8 : ℕ → String
utf_8 n =
    if ltb n 0x80
    then percent n
    else if ltb n 0x800
    then str_append (percent (0xc0 + n / 64)) (percent (0x80 + n % 64))
    else if ltb n 0x10000
    then str_append (percent (0xe0 + n / 4096))
        (str_append (percent (0x80 + n / 64 % 64)) (percent (0x80 + n % 64)))
    else str_append (percent (0xf0 + n / 262144)) (
        str_append (percent (0x80 + n / 4096 % 64))
          (str_append (percent (0x80 + n / 64 % 64)) (percent (0x80 + n % 64))))

unfoldable pub encode_uri_component : String → String
unfolding is_unreserved utf_8 percent upper_char hex_char
encode_uri_component [] = ""
encode_uri_component (c ∷ s) =
    str_append (if is_unreserved c then c ∷ "" else utf_8 (code c)) (encode_uri_component s)

encode_test : encode_uri_component "a b&é€" ≡ "a%20b%26%C3%A9%E2%82%AC"
unfolding encode_uri_component
encode_test = refl
