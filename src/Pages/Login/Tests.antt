-- ===== src/Pages/Login/Tests.antt =====
-- The login page on concrete inputs.
use arcops.Prelude.{String, true, false, none, [], ◌∷◌}
use arcops.Js.Json.{Json, str, object}
use arcops.Js.World.{Response, answer}
use arcops.Js.World.Object.{Object}
use arcops.Js.World.Sample.{world, reply_json}
use arcops.Pages.Login.{Form}
use arcops.Pages.Login.View.{type_email, type_code, submit}

abbrev gateway : String
gateway = "http://localhost:8000"

abbrev form : Form
form = record {
  email = "ann@example.com";
  otp_code = "123456";
  otp_sent = true;
  loading = false;
  error = none;
  success = none;
}

abbrev denied : Response
denied = reply_json 403 [] (object (("error", str "restricted") ∷ []))

abbrev granted : Response
granted = reply_json 200 [] (object (("token", str "abc") ∷ []))

abbrev refusing : Object Form
refusing = record { this = form; world = world [] (answer denied ∷ []) }

abbrev accepting : Object Form
accepting = record { this = form; world = world [] (answer granted ∷ []) }

abbrev refusal : Json
refusal = object (("error", str "restricted") ∷ [])

abbrev grant : Json
grant = object (("token", str "abc") ∷ [])

-- An address is typed, a code is asked for and sent, and it is verified.
abbrev empty : Object Form
empty = record {
  this = record form { email = ""; otp_code = ""; otp_sent = false };
  world = world [] (answer granted ∷ answer denied ∷ []);
}

abbrev addressed : Object Form
addressed = record empty { this = type_email "ann@example.com" empty.this }

abbrev asked : Object Form
asked = (submit gateway addressed).1

abbrev answered : Object Form
answered = record asked { this = type_code "123456" asked.this }
