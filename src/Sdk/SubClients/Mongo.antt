-- ===== src/Sdk/SubClients/Mongo.antt =====
-- `MongoSubClient` of dbmux/sdk/ts/src/index.ts.
use arcops.Prelude.{ℕ, String, Option, get_or, [], ◌∷◌}
use arcops.Js.Json.{Json, object, str, num}
use arcops.Js.World.Object.{Method}
use arcops.Sdk.Mask.{cap_mongo}
use arcops.Sdk.Client.{Client}
use arcops.Sdk.Gate.{gated}

unfoldable pub find : String → String → String → Option ℕ → Option String → Method Client Json
unfolding gated
find db_name collection filter_json limit provider_id =
    gated cap_mongo "MongoDB provider is not configured on server" "/dbmux.v1.Mongo/DocFind" (
      object (
        ("provider_id", str (get_or provider_id "mongo"))
        ∷ ("database", str db_name)
        ∷ ("collection", str collection)
        ∷ ("filter_json", str filter_json)
        ∷ ("limit", num (get_or limit 100))
        ∷ []))

unfoldable pub insert : String → String → String → Option String → Method Client Json
unfolding gated
insert db_name collection document_json provider_id =
    gated cap_mongo "MongoDB provider is not configured on server" "/dbmux.v1.Mongo/Insert" (
      object (
        ("provider_id", str (get_or provider_id "mongo"))
        ∷ ("database", str db_name)
        ∷ ("collection", str collection)
        ∷ ("document_json", str document_json)
        ∷ []))

unfoldable pub update : String → String → String → String → Option String → Method Client Json
unfolding gated
update db_name collection filter_json update_json provider_id =
    gated cap_mongo "MongoDB provider is not configured on server" "/dbmux.v1.Mongo/Update" (
      object (
        ("provider_id", str (get_or provider_id "mongo"))
        ∷ ("db_name", str db_name)
        ∷ ("collection", str collection)
        ∷ ("filter_json", str filter_json)
        ∷ ("update_json", str update_json)
        ∷ []))

unfoldable pub delete : String → String → String → Option String → Method Client Json
unfolding gated
delete db_name collection filter_json provider_id =
    gated cap_mongo "MongoDB provider is not configured on server" "/dbmux.v1.Mongo/Delete" (
      object (
        ("provider_id", str (get_or provider_id "mongo"))
        ∷ ("db_name", str db_name)
        ∷ ("collection", str collection)
        ∷ ("filter_json", str filter_json)
        ∷ []))

unfoldable pub count : String → String → String → Option String → Method Client Json
unfolding gated
count db_name collection filter_json provider_id =
    gated cap_mongo "MongoDB provider is not configured on server" "/dbmux.v1.Mongo/Count" (
      object (
        ("provider_id", str (get_or provider_id "mongo"))
        ∷ ("db_name", str db_name)
        ∷ ("collection", str collection)
        ∷ ("filter_json", str filter_json)
        ∷ []))
