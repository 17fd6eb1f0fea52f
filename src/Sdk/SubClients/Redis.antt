-- ===== src/Sdk/SubClients/Redis.antt =====
-- `RedisSubClient` of dbmux/sdk/ts/src/index.ts.
use arcops.Prelude.{ℕ, String, Option, get_or, [], ◌∷◌}
use arcops.Js.Json.{Json, object, str, num}
use arcops.Js.World.Object.{Method}
use arcops.Sdk.Mask.{cap_redis}
use arcops.Sdk.Client.{Client}
use arcops.Sdk.Gate.{gated}

unfoldable pub get : String → Option String → Method Client Json
unfolding gated
get key provider_id =
    gated cap_redis "Redis provider is not configured on server" "/dbmux.v1.KV/Get"
      (object (("provider_id", str (get_or provider_id "redis")) ∷ ("key", str key) ∷ []))

unfoldable pub set : String → String → Option ℕ → Option String → Method Client Json
unfolding gated
set key value ttl_seconds provider_id =
    gated cap_redis "Redis provider is not configured on server" "/dbmux.v1.KV/Set" (
      object (
        ("provider_id", str (get_or provider_id "redis"))
        ∷ ("key", str key)
        ∷ ("value", str value)
        ∷ ("ttl_seconds", num (get_or ttl_seconds 0))
        ∷ []))

unfoldable pub del : String → Option String → Method Client Json
unfolding gated
del key provider_id =
    gated cap_redis "Redis provider is not configured on server" "/dbmux.v1.KV/Del"
      (object (("provider_id", str (get_or provider_id "redis")) ∷ ("key", str key) ∷ []))

unfoldable pub exists : String → Option String → Method Client Json
unfolding gated
exists key provider_id =
    gated cap_redis "Redis provider is not configured on server" "/dbmux.v1.KV/Exists"
      (object (("provider_id", str (get_or provider_id "redis")) ∷ ("key", str key) ∷ []))

unfoldable pub expire : String → ℕ → Option String → Method Client Json
unfolding gated
expire key ttl_seconds provider_id =
    gated cap_redis "Redis provider is not configured on server" "/dbmux.v1.KV/Expire" (
      object (
        ("provider_id", str (get_or provider_id "redis"))
        ∷ ("key", str key)
        ∷ ("ttl_seconds", num ttl_seconds)
        ∷ []))

unfoldable pub incr : String → Option ℕ → Option String → Method Client Json
unfolding gated
incr key delta provider_id =
    gated cap_redis "Redis provider is not configured on server" "/dbmux.v1.KV/Incr" (
      object (
        ("provider_id", str (get_or provider_id "redis"))
        ∷ ("key", str key)
        ∷ ("delta", num (get_or delta 1))
        ∷ []))
