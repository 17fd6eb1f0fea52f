-- ===== src/Js/Json/Stringify.antt =====
-- `JSON.stringify`: fields that are undefined are left out, in an array they are `null`.
use Prim.Native.Char.{Char, code}
use Prim.Native.String.{[], ◌∷◌, ◌++◌ as str_append}
use arcops.Prelude.{
  ◌/◌, ◌%◌, String, ◌≡◌, refl, Bool, true, false, List, [], ◌∷◌, ltb, eqb, if◌then◌else◌,
}
use arcops.Js.Text.{template, decimal, join}
use arcops.Js.Text.Chars.{hex_char}
use arcops.Js.Json.{
  Json, Items, Fields, undefined, null, bool, num, str, arr, obj, nil, cons, end, field, object,
  array,
}

-- One character of a text between quotes.
escape_char : Char → String
unfolding hex_char
escape_char c =
    let n = code c in
    if eqb n b'"'
    then "\\\""
    else if eqb n b'\\'
    then "\\\\"
    else if eqb n 8
    then "\\b"
    else if eqb n 9
    then "\\t"
    else if eqb n 10
    then "\\n"
    else if eqb n 12
    then "\\f"
    else if eqb n 13
    then "\\r"
    else if ltb n 32
    then str_append "\\u00" (hex_char (n / 16) ∷ hex_char (n % 16) ∷ "")
    else c ∷ ""

escape : String → String
unfolding escape_char
escape [] = ""
escape (c ∷ s) = str_append (escape_char c) (escape s)

unfoldable pub quote : String → String
unfolding escape
quote s = template ("\"" ∷ escape s ∷ "\"" ∷ [])

unfoldable pub is_undefined : Json → Bool
is_undefined undefined = true
is_undefined _ = false

unfoldable mutual
  unfolding quote join is_undefined

  pub stringify : Json → String
  stringify undefined = "undefined"
  stringify null = "null"
  stringify (bool true) = "true"
  stringify (bool false) = "false"
  stringify (num n) = decimal n
  stringify (str s) = quote s
  stringify (arr vs) = template ("[" ∷ join "," (stringify_items vs) ∷ "]" ∷ [])
  stringify (obj fs) = template ("{" ∷ join "," (stringify_fields fs) ∷ "}" ∷ [])

  pub stringify_items : Items → List String
  stringify_items nil = []
  stringify_items (cons v vs) =
      (if is_undefined v then "null" else stringify v) ∷ stringify_items vs

  pub stringify_fields : Fields → List String
  stringify_fields end = []
  stringify_fields (field k v fs) =
      if is_undefined v
      then stringify_fields fs
      else template (quote k ∷ ":" ∷ stringify v ∷ []) ∷ stringify_fields fs

stringify_test :
    stringify
      (object (("id", num 7) ∷ ("x", undefined) ∷ ("n", array (str "a\"b" ∷ null ∷ [])) ∷ []))
    ≡ "{\"id\":7,\"n\":[\"a\\\"b\",null]}"
unfolding stringify decimal
stringify_test = refl
