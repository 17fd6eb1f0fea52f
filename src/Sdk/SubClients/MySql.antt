-- ===== src/Sdk/SubClients/MySql.antt =====
-- `MySQLSubClient` of dbmux/sdk/ts/src/index.ts.
use arcops.Prelude.{String, Option, List, map, get_or, [], ◌∷◌}
use arcops.Js.Json.{Json, object, array, str}
use arcops.Js.World.Object.{Method}
use arcops.Sdk.Mask.{cap_mysql}
use arcops.Sdk.Client.{Client}
use arcops.Sdk.Gate.{gated}

unfoldable pub query : String → String → Option (List String) → Method Client Json
unfolding gated
query provider_id sql params =
    gated cap_mysql "MySQL provider is not configured on server" "/dbmux.v1.MySQL/Query" (
      object (
        ("provider_id", str provider_id)
        ∷ ("query", str sql)
        ∷ ("params", array (map str (get_or params [])))
        ∷ []))

unfoldable pub exec : String → String → Option (List String) → Method Client Json
unfolding gated
exec provider_id query params =
    gated cap_mysql "MySQL provider is not configured on server" "/dbmux.v1.MySQL/Exec" (
      object (
        ("provider_id", str provider_id)
        ∷ ("query", str query)
        ∷ ("params", array (map str (get_or params [])))
        ∷ []))
