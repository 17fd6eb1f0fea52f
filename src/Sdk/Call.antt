-- ===== src/Sdk/Call.antt =====
-- Every method of the sub-clients as a value, so that statements can range over them all.
pub mod Wire
pub mod Gating
pub mod Sending
pub mod Frame
use arcops.Prelude.{ℕ, String, Option, List}
use arcops.Js.Json.{Json}
use arcops.Js.World.Object.{Method}
use arcops.Sdk.Client.{Client}
use arcops.Sdk.SubClients.Postgres
use arcops.Sdk.SubClients.MySql
use arcops.Sdk.SubClients.Sqlite
use arcops.Sdk.SubClients.Redis
use arcops.Sdk.SubClients.Mongo
use arcops.Sdk.SubClients.Vector
use arcops.Sdk.SubClients.PubSub
use arcops.Sdk.SubClients.Queue
use arcops.Sdk.SubClients.State
use arcops.Sdk.SubClients.Cron
use arcops.Sdk.SubClients.Secret

pub data Call : Type 0 where
  postgres_query : String → String → Option (List String) → Call
  postgres_exec : String → String → Option (List String) → Call
  my_sql_query : String → String → Option (List String) → Call
  my_sql_exec : String → String → Option (List String) → Call
  sqlite_query : String → String → Option (List String) → Call
  sqlite_exec : String → String → Option (List String) → Call
  redis_get : String → Option String → Call
  redis_set : String → String → Option ℕ → Option String → Call
  redis_del : String → Option String → Call
  redis_exists : String → Option String → Call
  redis_expire : String → ℕ → Option String → Call
  redis_incr : String → Option ℕ → Option String → Call
  mongo_find : String → String → String → Option ℕ → Option String → Call
  mongo_insert : String → String → String → Option String → Call
  mongo_update : String → String → String → String → Option String → Call
  mongo_delete : String → String → String → Option String → Call
  mongo_count : String → String → String → Option String → Call
  vector_search : String → List ℕ → Option ℕ → Option String → Call
  pub_sub_publish : String → String → Call
  queue_enqueue : String → String → Call
  queue_dequeue : String → Call
  queue_size : String → Call
  queue_peek : String → Call
  queue_purge : String → Call
  state_save_state : String → String → Option ℕ → Call
  state_get_state : String → Option String → Call
  state_delete_state : String → Option String → Call
  cron_register : String → String → String → Call
  cron_trigger : String → Call
  cron_list : Call
  cron_delete : String → Call
  secret_get_secret : String → String → Call
  secret_get_bulk_secrets : String → Call
  secret_set_secret : String → String → String → Call
  secret_delete_secret : String → String → Call

unfoldable pub run : Call → Method Client Json
unfolding Postgres.query Postgres.exec MySql.query MySql.exec Sqlite.query Sqlite.exec Redis.get
    Redis.set Redis.del Redis.exists Redis.expire Redis.incr Mongo.find Mongo.insert Mongo.update
    Mongo.delete Mongo.count Vector.search PubSub.publish Queue.enqueue Queue.dequeue Queue.size
    Queue.peek Queue.purge State.save_state State.get_state State.delete_state Cron.register
    Cron.trigger Cron.list Cron.delete Secret.get_secret Secret.get_bulk_secrets Secret.set_secret
    Secret.delete_secret
run (postgres_query provider_id sql params) = Postgres.query provider_id sql params
run (postgres_exec provider_id query params) = Postgres.exec provider_id query params
run (my_sql_query provider_id sql params) = MySql.query provider_id sql params
run (my_sql_exec provider_id query params) = MySql.exec provider_id query params
run (sqlite_query provider_id sql params) = Sqlite.query provider_id sql params
run (sqlite_exec provider_id query params) = Sqlite.exec provider_id query params
run (redis_get key provider_id) = Redis.get key provider_id
run (redis_set key value ttl_seconds provider_id) = Redis.set key value ttl_seconds provider_id
run (redis_del key provider_id) = Redis.del key provider_id
run (redis_exists key provider_id) = Redis.exists key provider_id
run (redis_expire key ttl_seconds provider_id) = Redis.expire key ttl_seconds provider_id
run (redis_incr key delta provider_id) = Redis.incr key delta provider_id
run (mongo_find db_name collection filter_json limit provider_id) =
    Mongo.find db_name collection filter_json limit provider_id
run (mongo_insert db_name collection document_json provider_id) =
    Mongo.insert db_name collection document_json provider_id
run (mongo_update db_name collection filter_json update_json provider_id) =
    Mongo.update db_name collection filter_json update_json provider_id
run (mongo_delete db_name collection filter_json provider_id) =
    Mongo.delete db_name collection filter_json provider_id
run (mongo_count db_name collection filter_json provider_id) =
    Mongo.count db_name collection filter_json provider_id
run (vector_search collection vector limit provider_id) =
    Vector.search collection vector limit provider_id
run (pub_sub_publish topic payload) = PubSub.publish topic payload
run (queue_enqueue queue_name payload) = Queue.enqueue queue_name payload
run (queue_dequeue queue_name) = Queue.dequeue queue_name
run (queue_size queue_name) = Queue.size queue_name
run (queue_peek queue_name) = Queue.peek queue_name
run (queue_purge queue_name) = Queue.purge queue_name
run (state_save_state key value_json ttl_seconds) = State.save_state key value_json ttl_seconds
run (state_get_state key store_name) = State.get_state key store_name
run (state_delete_state key store_name) = State.delete_state key store_name
run (cron_register cron_id schedule payload_json) = Cron.register cron_id schedule payload_json
run (cron_trigger cron_id) = Cron.trigger cron_id
run cron_list = Cron.list
run (cron_delete cron_id) = Cron.delete cron_id
run (secret_get_secret store_name secret_key) = Secret.get_secret store_name secret_key
run (secret_get_bulk_secrets store_name) = Secret.get_bulk_secrets store_name
run (secret_set_secret store_name secret_key secret_value) =
    Secret.set_secret store_name secret_key secret_value
run (secret_delete_secret store_name secret_key) = Secret.delete_secret store_name secret_key
