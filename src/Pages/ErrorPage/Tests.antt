-- ===== src/Pages/ErrorPage/Tests.antt =====
-- The error page behind a refused code.
use Prim.Native.Char.{Char, code}
use Prim.Native.String.{[], ◌∷◌, ◌++◌ as str_append}
use text.Mathlib.TextLemmas.{append_assoc as str_append_assoc}
use arcops.Prelude.{String, Bool, true, false, not, none, [], ◌∷◌, eqb, if◌then◌else◌}
use arcops.Js.Json.{Json, str, object}
use arcops.Js.World.{Response, answer}
use arcops.Js.World.Object.{Object}
use arcops.Js.World.Sample.{world, reply_json}
use arcops.Pages.Login.{Form}

-- What stands behind the first question mark.
abbrev after_mark : String → String
after_mark [] = ""
after_mark (c ∷ s) = if eqb (code c) b'?' then s else after_mark s

abbrev is_path_char : Char → Bool
is_path_char c = not (eqb (code c) b'?')

abbrev form : Form
form = record {
  email = "ann@example.com";
  otp_code = "123456";
  otp_sent = true;
  loading = false;
  error = none;
  success = none;
}

abbrev refusal : Json
refusal = object (("error", str "not you & not 50% of us: 管理") ∷ [])

abbrev denied : Response
denied = reply_json 429 [] refusal

abbrev refusing : Object Form
refusing = record { this = form; world = world [] (answer denied ∷ []) }
