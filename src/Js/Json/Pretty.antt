-- ===== src/Js/Json/Pretty.antt =====
-- `JSON.stringify(v, null, 2)`: one field or element on each line, two spaces deeper than its parent.
use arcops.Prelude.{String, ◌≡◌, refl, true, false, List, [], ◌∷◌, if◌then◌else◌}
use arcops.Js.Text.{template, decimal, join}
use arcops.Js.Json.{
  Json, Items, Fields, undefined, null, bool, num, str, arr, obj, nil, cons, end, field, object,
  array,
}
use arcops.Js.Json.Stringify.{quote, is_undefined}

-- The lines of an array or an object between its brackets, at an indentation.
block : String → String → String → List String → String
unfolding join
block pad opening closing [] = template (opening ∷ closing ∷ [])
block pad opening closing (l ∷ ls) = template (
    opening
    ∷ "\n  "
    ∷ pad
    ∷ join (template (",\n  " ∷ pad ∷ [])) (l ∷ ls)
    ∷ "\n"
    ∷ pad
    ∷ closing
    ∷ [])

abbrev deeper : String → String
deeper pad = template (pad ∷ "  " ∷ [])

unfoldable mutual
  unfolding quote is_undefined block

  pub pretty_at : String → Json → String
  pretty_at pad undefined = "undefined"
  pretty_at pad null = "null"
  pretty_at pad (bool true) = "true"
  pretty_at pad (bool false) = "false"
  pretty_at pad (num n) = decimal n
  pretty_at pad (str s) = quote s
  pretty_at pad (arr vs) = block pad "[" "]" (pretty_items (deeper pad) vs)
  pretty_at pad (obj fs) = block pad "{" "}" (pretty_fields (deeper pad) fs)

  pub pretty_items : String → Items → List String
  pretty_items pad nil = []
  pretty_items pad (cons v vs) =
      (if is_undefined v then "null" else pretty_at pad v) ∷ pretty_items pad vs

  pub pretty_fields : String → Fields → List String
  pretty_fields pad end = []
  pretty_fields pad (field k v fs) =
      if is_undefined v
      then pretty_fields pad fs
      else template (quote k ∷ ": " ∷ pretty_at pad v ∷ []) ∷ pretty_fields pad fs

unfoldable pub pretty : Json → String
unfolding pretty_at
pretty v = pretty_at "" v

pretty_test :
    pretty (object (("id", num 7) ∷ ("n", array (str "a" ∷ object [] ∷ [])) ∷ []))
    ≡ "{\n  \"id\": 7,\n  \"n\": [\n    \"a\",\n    {}\n  ]\n}"
unfolding pretty decimal
pretty_test = refl
