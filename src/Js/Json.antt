-- ===== src/Js/Json.antt =====
-- Values of type `any`: what a response's body or a parsed text holds. Numbers are naturals, as in
-- every value that the program reads from one.
pub mod Stringify
pub mod Pretty
use arcops.Prelude.{ℕ, String, Bool, true, false, not, List, [], ◌∷◌, eqb, ◌==◌, if◌then◌else◌}
use arcops.Js.Text.{join, decimal}

mutual
  pub data Json : Type 0 where
    undefined : Json
    null : Json
    bool : Bool → Json
    num : ℕ → Json
    str : String → Json
    arr : Items → Json
    obj : Fields → Json

  pub data Items : Type 0 where
    nil : Items
    cons : Json → Items → Items

  pub data Fields : Type 0 where
    end : Fields
    field : String → Json → Fields → Fields

-- An object literal, an array literal, and an array's elements.
abbrev pub fields : List (String × Json) → Fields
fields [] = end
fields ((k, v) ∷ kvs) = field k v (fields kvs)

abbrev pub object : List (String × Json) → Json
object kvs = obj (fields kvs)

abbrev pub items : List Json → Items
items [] = nil
items (v ∷ vs) = cons v (items vs)

abbrev pub array : List Json → Json
array vs = arr (items vs)

abbrev pub elems : Items → List Json
elems nil = []
elems (cons v vs) = v ∷ elems vs

-- `Boolean(v)`, the test of `if`, `&&` and `||`
abbrev pub truthy : Json → Bool
truthy undefined = false
truthy null = false
truthy (bool b) = b
truthy (num n) = not (eqb n 0)
truthy (str s) = not (s == "")
truthy (arr vs) = true
truthy (obj fs) = true

-- `v || w`
abbrev pub or_else : Json → Json → Json
or_else v w = if truthy v then v else w

-- `v ?? w`
abbrev pub or_absent : Json → Json → Json
or_absent undefined w = w
or_absent null w = w
or_absent v w = v

unfoldable pub field_of : String → Fields → Json
field_of k end = undefined
field_of k (field j v fs) = if j == k then v else field_of k fs

-- `v.k` where `v` is neither null nor undefined; those throw (see `Exec.prop`).
unfoldable pub get : Json → String → Json
unfolding field_of
get (obj fs) k = field_of k fs
get _ k = undefined

abbrev pub is_nullish : Json → Bool
is_nullish undefined = true
is_nullish null = true
is_nullish _ = false

abbrev pub is_array : Json → Bool
is_array (arr vs) = true
is_array _ = false

abbrev pub array_of : Json → List Json
array_of (arr vs) = elems vs
array_of _ = []

-- `String(v)`
unfoldable mutual
  unfolding join

  pub to_string : Json → String
  to_string undefined = "undefined"
  to_string null = "null"
  to_string (bool true) = "true"
  to_string (bool false) = "false"
  to_string (num n) = decimal n
  to_string (str s) = s
  to_string (arr vs) = join "," (item_strings vs)
  to_string (obj fs) = "[object Object]"

  pub item_strings : Items → List String
  item_strings nil = []
  item_strings (cons v vs) = (if is_nullish v then "" else to_string v) ∷ item_strings vs
