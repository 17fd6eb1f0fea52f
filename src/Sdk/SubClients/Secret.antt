-- ===== src/Sdk/SubClients/Secret.antt =====
-- `SecretSubClient` of dbmux/sdk/ts/src/index.ts.
use arcops.Prelude.{String, [], ◌∷◌}
use arcops.Js.Json.{Json, object, str}
use arcops.Js.World.Object.{Method}
use arcops.Sdk.Client.{Client, do_request}

unfoldable pub get_secret : String → String → Method Client Json
get_secret store_name secret_key =
    do_request "/dbmux.v1.Secret/GetSecret"
      (object (("store_name", str store_name) ∷ ("secret_key", str secret_key) ∷ []))

unfoldable pub get_bulk_secrets : String → Method Client Json
get_bulk_secrets store_name =
    do_request "/dbmux.v1.Secret/GetBulkSecrets" (object (("store_name", str store_name) ∷ []))

unfoldable pub set_secret : String → String → String → Method Client Json
set_secret store_name secret_key secret_value = do_request "/dbmux.v1.Secret/SetSecret" (
    object (
      ("store_name", str store_name)
      ∷ ("secret_key", str secret_key)
      ∷ ("secret_value", str secret_value)
      ∷ []))

unfoldable pub delete_secret : String → String → Method Client Json
delete_secret store_name secret_key =
    do_request "/dbmux.v1.Secret/DeleteSecret"
      (object (("store_name", str store_name) ∷ ("secret_key", str secret_key) ∷ []))
