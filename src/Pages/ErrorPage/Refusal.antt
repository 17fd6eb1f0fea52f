-- ===== src/Pages/ErrorPage/Refusal.antt =====
-- The error page to which the login page goes.
use Prim.Native.Char.{Char, code}
use Prim.Native.String.{[], ◌∷◌, ◌++◌ as str_append}
use text.Mathlib.TextLemmas.{append_assoc as str_append_assoc, append-nil as str_append-nil}
use arcops.Prelude.{ℕ, String, ◌≡◌, Bool, true, not, [], ◌∷◌, ◌++◌, eqb}
use arcops.Js.Text.{decimal}
use arcops.Js.Text.Every.{every}
use arcops.Js.Text.Query.{search_params}
use arcops.Js.Text.Uri.{encode_uri_component}
use arcops.Js.Json.{Json}
use arcops.Js.World.Object.{Object}
use arcops.Pages.ErrorPage.{ErrorPage, error_page}

-- No mark of a fragment.
abbrev pub is_query_char : Char → Bool
is_query_char c = not (eqb (code c) b'#')

abbrev pub IsQuery : String → Type 0
IsQuery q = every is_query_char q ≡ true

-- The query that the login page writes.
abbrev error_query : ℕ → String → String
error_query status message =
    str_append (str_append "code" (str_append "=" (decimal status)))
      (str_append "&" (str_append "message" (str_append "=" (encode_uri_component message))))

-- What the error page shows at a path, by the query that the router takes from it.
abbrev pub page_at : (String → String) → String → ErrorPage
page_at search_of path = error_page (search_params (search_of path))
