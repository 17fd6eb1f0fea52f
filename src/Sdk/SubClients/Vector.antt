-- ===== src/Sdk/SubClients/Vector.antt =====
-- `VectorSubClient` of dbmux/sdk/ts/src/index.ts.
use arcops.Prelude.{ℕ, String, Option, List, map, get_or, [], ◌∷◌}
use arcops.Js.Json.{Json, object, array, str, num}
use arcops.Js.World.Object.{Method}
use arcops.Sdk.Mask.{cap_vector}
use arcops.Sdk.Client.{Client}
use arcops.Sdk.Gate.{gated}

unfoldable pub search : String → List ℕ → Option ℕ → Option String → Method Client Json
unfolding gated
search collection vector limit provider_id =
    gated cap_vector "Vector provider is not configured on server" "/dbmux.v1.Vector/VectorSearch" (
      object (
        ("provider_id", str (get_or provider_id "qdrant"))
        ∷ ("collection_name", str collection)
        ∷ ("vector", array (map num vector))
        ∷ ("limit", num (get_or limit 10))
        ∷ []))
