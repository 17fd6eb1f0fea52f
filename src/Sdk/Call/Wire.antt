-- ===== src/Sdk/Call/Wire.antt =====
-- What a call of the SDK puts on the wire.
use arcops.Prelude.{ℕ, String, Option, map, get_or, none, some, [], ◌∷◌, ◌≡◌, refl}
use arcops.Js.Json.{Json, object, array, str, num}
use arcops.Js.World.Object.{Method}
use arcops.Sdk.Mask.{cap_mongo, cap_mysql, cap_postgres, cap_redis, cap_sqlite, cap_vector}
use arcops.Sdk.Client.{Client, do_request}
use arcops.Sdk.Gate.{gated}
use arcops.Sdk.Call.{
  Call, run, postgres_query, postgres_exec, my_sql_query, my_sql_exec, sqlite_query, sqlite_exec,
  redis_get, redis_set, redis_del, redis_exists, redis_expire, redis_incr, mongo_find, mongo_insert,
  mongo_update, mongo_delete, mongo_count, vector_search, pub_sub_publish, queue_enqueue,
  queue_dequeue, queue_size, queue_peek, queue_purge, state_save_state, state_get_state,
  state_delete_state, cron_register, cron_trigger, cron_list, cron_delete, secret_get_secret,
  secret_get_bulk_secrets, secret_set_secret, secret_delete_secret,
}

-- The engine that a call needs: its capability bit, and the message when the bit is off.
abbrev pub requires : Call → Option (ℕ × String)
requires (postgres_query _ _ _) =
    some (cap_postgres, "PostgreSQL provider is not configured on server")
requires (postgres_exec _ _ _) =
    some (cap_postgres, "PostgreSQL provider is not configured on server")
requires (my_sql_query _ _ _) = some (cap_mysql, "MySQL provider is not configured on server")
requires (my_sql_exec _ _ _) = some (cap_mysql, "MySQL provider is not configured on server")
requires (sqlite_query _ _ _) = some (cap_sqlite, "SQLite provider is not configured on server")
requires (sqlite_exec _ _ _) = some (cap_sqlite, "SQLite provider is not configured on server")
requires (redis_get _ _) = some (cap_redis, "Redis provider is not configured on server")
requires (redis_set _ _ _ _) = some (cap_redis, "Redis provider is not configured on server")
requires (redis_del _ _) = some (cap_redis, "Redis provider is not configured on server")
requires (redis_exists _ _) = some (cap_redis, "Redis provider is not configured on server")
requires (redis_expire _ _ _) = some (cap_redis, "Redis provider is not configured on server")
requires (redis_incr _ _ _) = some (cap_redis, "Redis provider is not configured on server")
requires (mongo_find _ _ _ _ _) = some (cap_mongo, "MongoDB provider is not configured on server")
requires (mongo_insert _ _ _ _) = some (cap_mongo, "MongoDB provider is not configured on server")
requires (mongo_update _ _ _ _ _) = some (cap_mongo, "MongoDB provider is not configured on server")
requires (mongo_delete _ _ _ _) = some (cap_mongo, "MongoDB provider is not configured on server")
requires (mongo_count _ _ _ _) = some (cap_mongo, "MongoDB provider is not configured on server")
requires (vector_search _ _ _ _) = some (cap_vector, "Vector provider is not configured on server")
requires _ = none

-- The path that a call is sent to.
abbrev pub path_of : Call → String
path_of (postgres_query _ _ _) = "/dbmux.v1.Postgres/Query"
path_of (postgres_exec _ _ _) = "/dbmux.v1.Postgres/Exec"
path_of (my_sql_query _ _ _) = "/dbmux.v1.MySQL/Query"
path_of (my_sql_exec _ _ _) = "/dbmux.v1.MySQL/Exec"
path_of (sqlite_query _ _ _) = "/dbmux.v1.SQLite/Query"
path_of (sqlite_exec _ _ _) = "/dbmux.v1.SQLite/Exec"
path_of (redis_get _ _) = "/dbmux.v1.KV/Get"
path_of (redis_set _ _ _ _) = "/dbmux.v1.KV/Set"
path_of (redis_del _ _) = "/dbmux.v1.KV/Del"
path_of (redis_exists _ _) = "/dbmux.v1.KV/Exists"
path_of (redis_expire _ _ _) = "/dbmux.v1.KV/Expire"
path_of (redis_incr _ _ _) = "/dbmux.v1.KV/Incr"
path_of (mongo_find _ _ _ _ _) = "/dbmux.v1.Mongo/DocFind"
path_of (mongo_insert _ _ _ _) = "/dbmux.v1.Mongo/Insert"
path_of (mongo_update _ _ _ _ _) = "/dbmux.v1.Mongo/Update"
path_of (mongo_delete _ _ _ _) = "/dbmux.v1.Mongo/Delete"
path_of (mongo_count _ _ _ _) = "/dbmux.v1.Mongo/Count"
path_of (vector_search _ _ _ _) = "/dbmux.v1.Vector/VectorSearch"
path_of (pub_sub_publish _ _) = "/dbmux.v1.PubSub/Publish"
path_of (queue_enqueue _ _) = "/dbmux.v1.Queue/Enqueue"
path_of (queue_dequeue _) = "/dbmux.v1.Queue/Dequeue"
path_of (queue_size _) = "/dbmux.v1.Queue/Size"
path_of (queue_peek _) = "/dbmux.v1.Queue/Peek"
path_of (queue_purge _) = "/dbmux.v1.Queue/Purge"
path_of (state_save_state _ _ _) = "/dbmux.v1.State/SaveState"
path_of (state_get_state _ _) = "/dbmux.v1.State/GetState"
path_of (state_delete_state _ _) = "/dbmux.v1.State/DeleteState"
path_of (cron_register _ _ _) = "/dbmux.v1.Cron/RegisterCron"
path_of (cron_trigger _) = "/dbmux.v1.Cron/TriggerCron"
path_of cron_list = "/dbmux.v1.Cron/ListCrons"
path_of (cron_delete _) = "/dbmux.v1.Cron/DeleteCron"
path_of (secret_get_secret _ _) = "/dbmux.v1.Secret/GetSecret"
path_of (secret_get_bulk_secrets _) = "/dbmux.v1.Secret/GetBulkSecrets"
path_of (secret_set_secret _ _ _) = "/dbmux.v1.Secret/SetSecret"
path_of (secret_delete_secret _ _) = "/dbmux.v1.Secret/DeleteSecret"

-- The message that a call sends.
abbrev pub payload_of : Call → Json
payload_of (postgres_query provider_id sql params) = object (
    ("provider_id", str provider_id)
    ∷ ("query", str sql)
    ∷ ("params", array (map str (get_or params [])))
    ∷ [])
payload_of (postgres_exec provider_id query params) = object (
    ("provider_id", str provider_id)
    ∷ ("query", str query)
    ∷ ("params", array (map str (get_or params [])))
    ∷ [])
payload_of (my_sql_query provider_id sql params) = object (
    ("provider_id", str provider_id)
    ∷ ("query", str sql)
    ∷ ("params", array (map str (get_or params [])))
    ∷ [])
payload_of (my_sql_exec provider_id query params) = object (
    ("provider_id", str provider_id)
    ∷ ("query", str query)
    ∷ ("params", array (map str (get_or params [])))
    ∷ [])
payload_of (sqlite_query provider_id sql params) = object (
    ("provider_id", str provider_id)
    ∷ ("query", str sql)
    ∷ ("params", array (map str (get_or params [])))
    ∷ [])
payload_of (sqlite_exec provider_id query params) = object (
    ("provider_id", str provider_id)
    ∷ ("query", str query)
    ∷ ("params", array (map str (get_or params [])))
    ∷ [])
payload_of (redis_get key provider_id) =
    object (("provider_id", str (get_or provider_id "redis")) ∷ ("key", str key) ∷ [])
payload_of (redis_set key value ttl_seconds provider_id) = object (
    ("provider_id", str (get_or provider_id "redis"))
    ∷ ("key", str key)
    ∷ ("value", str value)
    ∷ ("ttl_seconds", num (get_or ttl_seconds 0))
    ∷ [])
payload_of (redis_del key provider_id) =
    object (("provider_id", str (get_or provider_id "redis")) ∷ ("key", str key) ∷ [])
payload_of (redis_exists key provider_id) =
    object (("provider_id", str (get_or provider_id "redis")) ∷ ("key", str key) ∷ [])
payload_of (redis_expire key ttl_seconds provider_id) = object (
    ("provider_id", str (get_or provider_id "redis"))
    ∷ ("key", str key)
    ∷ ("ttl_seconds", num ttl_seconds)
    ∷ [])
payload_of (redis_incr key delta provider_id) = object (
    ("provider_id", str (get_or provider_id "redis"))
    ∷ ("key", str key)
    ∷ ("delta", num (get_or delta 1))
    ∷ [])
payload_of (mongo_find db_name collection filter_json limit provider_id) = object (
    ("provider_id", str (get_or provider_id "mongo"))
    ∷ ("database", str db_name)
    ∷ ("collection", str collection)
    ∷ ("filter_json", str filter_json)
    ∷ ("limit", num (get_or limit 100))
    ∷ [])
payload_of (mongo_insert db_name collection document_json provider_id) = object (
    ("provider_id", str (get_or provider_id "mongo"))
    ∷ ("database", str db_name)
    ∷ ("collection", str collection)
    ∷ ("document_json", str document_json)
    ∷ [])
payload_of (mongo_update db_name collection filter_json update_json provider_id) = object (
    ("provider_id", str (get_or provider_id "mongo"))
    ∷ ("db_name", str db_name)
    ∷ ("collection", str collection)
    ∷ ("filter_json", str filter_json)
    ∷ ("update_json", str update_json)
    ∷ [])
payload_of (mongo_delete db_name collection filter_json provider_id) = object (
    ("provider_id", str (get_or provider_id "mongo"))
    ∷ ("db_name", str db_name)
    ∷ ("collection", str collection)
    ∷ ("filter_json", str filter_json)
    ∷ [])
payload_of (mongo_count db_name collection filter_json provider_id) = object (
    ("provider_id", str (get_or provider_id "mongo"))
    ∷ ("db_name", str db_name)
    ∷ ("collection", str collection)
    ∷ ("filter_json", str filter_json)
    ∷ [])
payload_of (vector_search collection vector limit provider_id) = object (
    ("provider_id", str (get_or provider_id "qdrant"))
    ∷ ("collection_name", str collection)
    ∷ ("vector", array (map num vector))
    ∷ ("limit", num (get_or limit 10))
    ∷ [])
payload_of (pub_sub_publish topic payload) =
    object (("topic", str topic) ∷ ("payload", str payload) ∷ [])
payload_of (queue_enqueue queue_name payload) =
    object (("queue_name", str queue_name) ∷ ("payload", str payload) ∷ [])
payload_of (queue_dequeue queue_name) = object (("queue_name", str queue_name) ∷ [])
payload_of (queue_size queue_name) = object (("queue_name", str queue_name) ∷ [])
payload_of (queue_peek queue_name) = object (("queue_name", str queue_name) ∷ [])
payload_of (queue_purge queue_name) = object (("queue_name", str queue_name) ∷ [])
payload_of (state_save_state key value_json ttl_seconds) = object (
    ("store_name", str "default")
    ∷ ("key", str key)
    ∷ ("value_json", str value_json)
    ∷ ("ttl_seconds", num (get_or ttl_seconds 3600))
    ∷ [])
payload_of (state_get_state key store_name) =
    object (("store_name", str (get_or store_name "default")) ∷ ("key", str key) ∷ [])
payload_of (state_delete_state key store_name) =
    object (("store_name", str (get_or store_name "default")) ∷ ("key", str key) ∷ [])
payload_of (cron_register cron_id schedule payload_json) = object (
    ("cron_id", str cron_id) ∷ ("schedule", str schedule) ∷ ("payload_json", str payload_json) ∷ [])
payload_of (cron_trigger cron_id) = object (("cron_id", str cron_id) ∷ [])
payload_of cron_list = object ([])
payload_of (cron_delete cron_id) = object (("cron_id", str cron_id) ∷ [])
payload_of (secret_get_secret store_name secret_key) =
    object (("store_name", str store_name) ∷ ("secret_key", str secret_key) ∷ [])
payload_of (secret_get_bulk_secrets store_name) = object (("store_name", str store_name) ∷ [])
payload_of (secret_set_secret store_name secret_key secret_value) = object (
    ("store_name", str store_name)
    ∷ ("secret_key", str secret_key)
    ∷ ("secret_value", str secret_value)
    ∷ [])
payload_of (secret_delete_secret store_name secret_key) =
    object (("store_name", str store_name) ∷ ("secret_key", str secret_key) ∷ [])

-- A call is its check, if it has one, and then one request.
abbrev pub checked : Option (ℕ × String) → String → Json → Method Client Json
checked none path payload = do_request path payload
checked (some (bit, message)) path payload = gated bit message path payload

pub run-checked : (c : Call) → run c ≡ checked (requires c) (path_of c) (payload_of c)
unfolding run
run-checked (postgres_query provider_id sql params) = refl
run-checked _ = refl
