-- ===== src/Js/World/Session.antt =====
-- The signed-in session that the pages and clients share through `localStorage`: a token and a user,
-- each under a new and an old key.
pub mod Token
use arcops.Prelude.{String, Bool, true, false, not, Option, none, some, ◌==◌, if◌then◌else◌}
use arcops.Js.World.{Storage}
use arcops.Js.World.WebStorage.{get_item}

-- Whether a text or null is truthy, and `a || b`.
abbrev pub is_text : Option String → Bool
is_text none = false
is_text (some s) = not (s == "")

abbrev pub or_text : Option String → Option String → Option String
or_text a b = if is_text a then a else b

abbrev pub text_or : Option String → String → String
text_or none d = d
text_or (some s) d = if s == "" then d else s

-- `localStorage.getItem("arcauth_token") || localStorage.getItem("authx_token")`
unfoldable pub stored_token : Storage → Option String
stored_token s = or_text (get_item s "arcauth_token") (get_item s "authx_token")

unfoldable pub stored_user : Storage → Option String
stored_user s = or_text (get_item s "arcauth_user") (get_item s "authx_user")
