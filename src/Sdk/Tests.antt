-- ===== src/Sdk/Tests.antt =====
-- The SDK on concrete inputs.
use arcops.Prelude.{◌≡◌, refl, none, some, [], ◌∷◌, ◌++◌, arith}
use arcops.Js.Json.{object}
use arcops.Js.Exec.{ok, err}
use arcops.Js.World.{Storage, World, answer}
use arcops.Js.World.WebStorage.{get_item}
use arcops.Js.World.Object.{Object}
use arcops.Js.World.Sample.{world, reply_json}
use arcops.Js.Text.{decimal}
use arcops.Sdk.Mask.{pos, has_bit, cap_redis}
use arcops.Sdk.Client.{Client, ClientOptions, dbmux_error, has_capability, init}
use arcops.Sdk.Call.{run, redis_get}
use arcops.Sdk.Call.Gating.{run-fails_fast}
use arcops.Sdk.Init.{init-gating}

abbrev options : ClientOptions
options = record {
  base_url = some "http://db:8080/";
  service_key = some "k";
  anon_key = none;
  auth_token = none;
  transport = some (λ _ payload w. (ok payload, w));
}

-- A server with PostgreSQL alone.
abbrev caps_header : Storage
caps_header = ("X-DBMux-Capabilities", "1") ∷ []

abbrev client : Client
client = record {
  base_url = "http://db:8080";
  service_key = some "k";
  anon_key = none;
  auth_token = none;
  transport = none;
  capabilities_mask = pos 1;
}

abbrev before : Object Client
before = record {
  this = client;
  world = world [] (answer (reply_json 200 caps_header (object [])) ∷ []);
}

run-fails_fast_example :
    run (redis_get "a" none) before
    ≡ (err (dbmux_error "Redis provider is not configured on server"), before)
unfolding has_capability has_bit
run-fails_fast_example =
    run-fails_fast (redis_get "a" none) before cap_redis
      "Redis provider is not configured on server" refl refl

abbrev quiet : World
quiet = world [] (answer (reply_json 200 caps_header (object [])) ∷ [])

init-gating_example :
    (run (redis_get "a" none) (init before).1).1.world.sent ≡ (init before).1.world.sent ++ []
unfolding get_item decimal
init-gating_example =
    init-gating before refl (reply_json 200 caps_header (object [])) [] refl 0 3 (omega arith)
      (omega arith) refl (redis_get "a" none) "Redis provider is not configured on server" refl
