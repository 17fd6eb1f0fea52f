-- ===== src/Pages/EnvVars.antt =====
-- Environment variables of a project: the list of the form in
-- web/src/components/frontedge/frontedge-create-project.tsx, and the text that is pasted into it.
pub mod Paste
pub mod Merge
pub mod Tests
use Prim.Native.Char.{code}
use Prim.Native.String.{[], ◌∷◌}
use arcops.Prelude.{
  ℕ, zero, suc, ◌+◌, String, Bool, true, false, not, ◌&&◌, ◌||◌, Option, none, some, List, [], ◌∷◌,
  ◌++◌, length, filter, eqb, ltb, ◌==◌, if◌then◌else◌,
}
use arcops.Js.Text.{starts_with, ends_with, includes, trim, split}

pub record EnvVar : Type 0 where
  pub key : String
  pub value : String
  pub is_secret : Bool

abbrev pub blank : EnvVar
blank = record { key = ""; value = ""; is_secret = false }

-- The text before and after the first character of a code.
unfoldable pub cut : ℕ → String → Option (String × String)
cut d [] = none
cut d (c ∷ s) =
    let rest = cut d s in
    if eqb (code c) d
    then some ("", s)
    else elim rest [ none ↦ none | some (a, b) ↦ some (c ∷ a, b) ]

-- `v.substring(1, v.length - 1)`; of a single character that is the character.
unfoldable pub drop_last : String → String
drop_last [] = ""
drop_last (c ∷ []) = ""
drop_last (c ∷ d ∷ s) = c ∷ drop_last (d ∷ s)

unfoldable pub inner : String → String
unfolding drop_last
inner [] = ""
inner (c ∷ []) = c ∷ ""
inner (c ∷ d ∷ s) = drop_last (d ∷ s)

abbrev pub is_quoted : String → String → Bool
is_quoted q v = starts_with v q && ends_with v q

unfoldable pub unquote : String → String
unfolding starts_with ends_with inner
unquote v = if is_quoted "\"" v || is_quoted "'" v then inner v else v

unfoldable pub is_secret_key : String → Bool
unfolding includes
is_secret_key key = includes key "SECRET" || includes key "KEY" || includes key "TOKEN"

unfoldable pub is_skipped : String → Bool
unfolding starts_with
is_skipped line = line == "" || starts_with line "#" || starts_with line "//"

abbrev pub entry : Option (String × String) → Option EnvVar
entry none = none
entry (some (k, v)) =
    if trim k == ""
    then none
    else some
        (record { key = trim k; value = unquote (trim v); is_secret = is_secret_key (trim k) })

-- What a line adds, if it adds a variable.
unfoldable pub parse_line : String → Option EnvVar
unfolding trim is_skipped cut unquote is_secret_key
parse_line line = if is_skipped (trim line) then none else entry (cut b'=' (trim line))

unfoldable pub parse_lines : List String → List EnvVar
unfolding parse_line
parse_lines [] = []
parse_lines (line ∷ lines) =
    let rest = parse_lines lines in elim (parse_line line) [ none ↦ rest | some v ↦ v ∷ rest ]

unfoldable pub parse_env : String → List EnvVar
unfolding parse_lines split
parse_env pasted = parse_lines (split b'\n' pasted)

-- `updated[idx] = item`, or `updated.push(item)` from the end on.
unfoldable pub set_or_push : List EnvVar → ℕ → EnvVar → List EnvVar
set_or_push [] idx item = item ∷ []
set_or_push (v ∷ vs) zero item = item ∷ vs
set_or_push (v ∷ vs) (suc idx) item = v ∷ set_or_push vs idx item

unfoldable pub merge : List EnvVar → ℕ → List EnvVar → List EnvVar
unfolding set_or_push
merge updated idx [] = updated
merge updated idx (item ∷ items) = merge (set_or_push updated idx item) (idx + 1) items

abbrev pub is_filled : EnvVar → Bool
is_filled v = not (v.key == "") || not (v.value == "")

-- Rows that are blank go, but for the last.
unfoldable pub drop_blank : List EnvVar → List EnvVar
drop_blank [] = []
drop_blank (v ∷ []) = v ∷ []
drop_blank (v ∷ w ∷ vs) = let rest = drop_blank (w ∷ vs) in if is_filled v then v ∷ rest else rest

paste_into : List EnvVar → ℕ → List EnvVar → List EnvVar
unfolding merge drop_blank
paste_into prev start [] = prev
paste_into prev start (item ∷ items) = drop_blank (merge prev start (item ∷ items))

-- `handlePasteEnv`: the new rows. A text with neither a line end nor `=` is left to the input.
unfoldable pub paste_env : List EnvVar → ℕ → String → List EnvVar
unfolding includes parse_env paste_into
paste_env prev start pasted =
    if not (includes pasted "\n") && not (includes pasted "=")
    then prev
    else paste_into prev start (parse_env pasted)

-- `addEnvVar`
unfoldable pub add_env_var : List EnvVar → List EnvVar
add_env_var vars = vars ++ blank ∷ []

abbrev secret_or : Option Bool → Bool → Bool
secret_or none s = s
secret_or (some b) s = b

-- `updateEnvVar` of a row of the form
unfoldable pub update_env_var : List EnvVar → ℕ → String → String → Option Bool → List EnvVar
update_env_var [] idx key value is_secret = []
update_env_var (v ∷ vs) zero key value is_secret =
    record { key = key; value = value; is_secret = secret_or is_secret v.is_secret } ∷ vs
update_env_var (v ∷ vs) (suc idx) key value is_secret =
    v ∷ update_env_var vs idx key value is_secret

-- `removeEnvVar`
unfoldable pub remove_env_var : List EnvVar → ℕ → List EnvVar
remove_env_var [] idx = []
remove_env_var (v ∷ vs) zero = vs
remove_env_var (v ∷ vs) (suc idx) = v ∷ remove_env_var vs idx

-- The variables that a deployment sends.
unfoldable pub named : List EnvVar → List EnvVar
unfolding trim
named vars = filter (λ v. not (trim v.key == "")) vars
