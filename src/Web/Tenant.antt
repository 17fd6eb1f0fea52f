-- ===== src/Web/Tenant.antt =====
-- `getTenantId` of web/src/lib/dbmux.ts.
use Prim.Native.Char.{Char, code}
use Prim.Native.String.{[], ◌∷◌}
use arcops.Prelude.{ℕ, String, Option, none, some, List, [], ◌∷◌, eqb, ◌==◌, if◌then◌else◌}
use arcops.Js.Text.{split}
use arcops.Js.Json.{Json, null, get, truthy, or_else, is_nullish}
use arcops.Js.World.{Storage}
use arcops.Js.World.Session.{stored_token, stored_user}

-- What the platform decodes: `JSON.parse`, `atob` and `decodeURIComponent`, `none` where they throw.
pub record Decoder : Type 0 where
  pub parse : String → Option Json
  pub atob : String → Option String
  pub decode_uri_component : String → Option String

infixl 5 ◌>>=◌
abbrev pub ◌>>=◌ : Option String → (String → Option Json) → Option Json
none >>= f = none
some a >>= f = f a

-- `s.replace(/x/g, y)` of one character
replace_char : ℕ → Char → String → String
replace_char x y [] = ""
replace_char x y (c ∷ s) = (if eqb (code c) x then y else c) ∷ replace_char x y s

-- A property of a value that may be null; `none` is the TypeError.
abbrev read_or_throw : (Json → Json) → Json → Option Json
read_or_throw f v = if is_nullish v then none else some (f v)

abbrev bind_json : Option Json → (Json → Option Json) → Option Json
bind_json none f = none
bind_json (some v) f = f v

module _ (d : Decoder) where
  -- `u.team_id || u.teamId || u.id`
  unfoldable pub user_tenant : String → Option Json
  user_tenant raw =
      bind_json (d.parse raw)
        (read_or_throw (λ u. or_else (get u "team_id") (or_else (get u "teamId") (get u "id"))))

  -- The claims of a token of three parts.
  claims_tenant : List String → Option Json
  unfolding replace_char
  claims_tenant (head ∷ body ∷ signature ∷ []) =
      bind_json (d.atob (replace_char b'_' "/" (replace_char b'-' "+" body)) >>= d.parse)
        (read_or_throw (λ p. or_else (get p "tenant_id") (or_else (get p "sub") null)))
  claims_tenant _ = some null

  unfoldable pub token_tenant : Option String → Option Json
  unfolding claims_tenant
  token_tenant none = some null
  token_tenant (some t) = if t == "" then some null else claims_tenant (split b'.' t)

  -- Whether the stored user settles it: a text that does not parse ends the search.
  abbrev settle : Option Json → Option Json → Option Json
  settle none later = none
  settle (some v) later = if truthy v then some v else later

  from_user : Option String → Option Json → Option Json
  from_user none later = later
  from_user (some raw) later = if raw == "" then later else settle (user_tenant raw) later

  abbrev caught : Option Json → Json
  caught none = null
  caught (some v) = v

  -- `getTenantId()`
  unfoldable pub get_tenant_id : Storage → Json
  unfolding from_user user_tenant token_tenant stored_user stored_token
  get_tenant_id stored =
      caught (from_user (stored_user stored) (token_tenant (stored_token stored)))
