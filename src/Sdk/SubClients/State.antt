-- ===== src/Sdk/SubClients/State.antt =====
-- `StateSubClient` of dbmux/sdk/ts/src/index.ts.
use arcops.Prelude.{ℕ, String, Option, get_or, [], ◌∷◌}
use arcops.Js.Json.{Json, object, str, num}
use arcops.Js.World.Object.{Method}
use arcops.Sdk.Client.{Client, do_request}

unfoldable pub save_state : String → String → Option ℕ → Method Client Json
save_state key value_json ttl_seconds = do_request "/dbmux.v1.State/SaveState" (
    object (
      ("store_name", str "default")
      ∷ ("key", str key)
      ∷ ("value_json", str value_json)
      ∷ ("ttl_seconds", num (get_or ttl_seconds 3600))
      ∷ []))

unfoldable pub get_state : String → Option String → Method Client Json
get_state key store_name =
    do_request "/dbmux.v1.State/GetState"
      (object (("store_name", str (get_or store_name "default")) ∷ ("key", str key) ∷ []))

unfoldable pub delete_state : String → Option String → Method Client Json
delete_state key store_name =
    do_request "/dbmux.v1.State/DeleteState"
      (object (("store_name", str (get_or store_name "default")) ∷ ("key", str key) ∷ []))
