-- ===== src/Pages/ErrorPage.antt =====
-- `ErrorPage`, web/src/components/error-page.tsx: what it shows for the query of its URL.
pub mod Refusal
pub mod Tests
use arcops.Prelude.{String, ◌≡◌, refl, ◌||◌, Option, none, some, [], ◌∷◌, any, ◌==◌, if◌then◌else◌}
use arcops.Js.Text.{template}
use arcops.Js.World.{Storage}
use arcops.Js.World.Object.{inherited}
use arcops.Js.World.WebStorage.{get_item}
use arcops.Js.World.Session.{or_text, text_or}

-- What the page shows; the picture is `none` where `svgMap[code]` is not a text.
pub record ErrorPage : Type 0 where
  pub code : String
  pub picture : Option String
  pub message : String

-- `svgMap[code] || "/403.svg"`; the names that every object inherits are no texts.
unfoldable pub picture_of : String → Option String
picture_of code =
    if code == "400" || code == "403" || code == "404" || code == "429" || code == "500"
    then some (template ("/" ∷ code ∷ ".svg" ∷ []))
    else if any (λ k. k == code) inherited
    then none
    else some "/403.svg"

unfoldable pub default_message : String → String
default_message code =
    if code == "403"
    then "Access forbidden: Your email is not authorized in ADMIN_EMAILS."
    else template ("Error " ∷ code ∷ [])

unfoldable pub code_of : Storage → String
unfolding get_item
code_of query = text_or (or_text (get_item query "code") (get_item query "status")) "403"

unfoldable pub error_page : Storage → ErrorPage
unfolding get_item code_of picture_of default_message
error_page query = record {
  code = code_of query;
  picture = picture_of (code_of query);
  message =
      text_or (or_text (get_item query "message") (get_item query "error"))
        (default_message (code_of query));
}

page_test :
    error_page (("status", "404") ∷ [])
    ≡ record { code = "404"; picture = some "/404.svg"; message = "Error 404" }
unfolding error_page
page_test = refl
