-- ===== src/Pages/Shell/Tests.antt =====
-- The session handshake on concrete inputs.
use arcops.Prelude.{String, none, some, [], ◌∷◌}
use arcops.Js.Json.{str, object}
use arcops.Js.World.{World, Storage, answer}
use arcops.Js.World.WebStorage.{get_item}
use arcops.Js.World.Sample.{world, reply_json}
use arcops.Web.Tenant.{Decoder}
use arcops.Pages.Shell.{take_redirect}

abbrev decoder : Decoder
decoder = record {
  parse = λ s. some (object (("id", str s) ∷ []));
  atob = λ s. none;
  decode_uri_component = λ s. some s;
}

abbrev gateway : String
gateway = "http://localhost:8000"

abbrev query : Storage
query = ("token", "abc") ∷ ("user", "ann") ∷ []

abbrev start : World
start = world [] (answer (reply_json 200 [] (object (("id", str "ann") ∷ []))) ∷ [])

abbrev redirected : World
redirected = (take_redirect decoder query (get_item query "token") start).1
