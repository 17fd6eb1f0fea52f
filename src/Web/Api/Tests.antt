-- ===== src/Web/Api/Tests.antt =====
-- `apiFetch` on concrete inputs.
use arcops.Prelude.{String, ◌≡◌, refl, none, some, [], ◌∷◌}
use arcops.Js.Json.{str, object, to_string, get}
use arcops.Js.World.{World, Response, answer}
use arcops.Js.World.Sample.{world, reply_text}
use arcops.Web.Tenant.{Decoder}
use arcops.Web.Api.{Options, refusal}

abbrev decoder : Decoder
decoder = record {
  parse = λ s. some (object (("error", str s) ∷ []));
  atob = λ s. none;
  decode_uri_component = λ s. none;
}

abbrev options : Options
options = record { method = none; headers = []; body = none }

abbrev denied : Response
denied = reply_text 403 "no access"

abbrev start : World
start = world (("arcauth_token", "abc") ∷ []) (answer denied ∷ [])

abbrev gateway : String
gateway = "http://localhost:8000"

refusal_test : refusal decoder denied ≡ "no access"
unfolding refusal to_string get
refusal_test = refl
