-- ===== src/Pages/Databases/SchemaFile.antt =====
-- `handleDownloadSchema`, web/src/components/db-bento.tsx: the file that describes a database.
use arcops.Prelude.{
  String, Bool, true, false, Option, none, some, List, [], ◌∷◌, ◌++◌, map, ◌==◌, if◌then◌else◌,
}
use arcops.Js.Text.{template, join, to_upper}
use arcops.Js.Json.{Json, undefined, str, num, array, object, get, or_else, to_string}
use arcops.Js.Json.Pretty.{pretty}
use arcops.Js.Entries.{get_entry, put_entry}
use arcops.Js.Exec.{pure, throw, catch, type_error, ◌>>=◌, ◌>>◌}
use arcops.Js.World.Object.{Method, io, update}
use arcops.Web.DbmuxSdk.{Client}
use arcops.Web.Tenant.{Decoder}
use arcops.Web.Dbmux.{execute_sql, get_backend_config}
use arcops.Web.Dbmux.Tables.{at, names_inherited}
use arcops.Pages.Databases.{Database, Panel}
use arcops.Pages.Databases.Queries.{col_sql}

-- `downloadFile`
abbrev download_file : String → String → String → Method Panel Unit
download_file filename content content_type = update λ p. record p {
  downloads =
      p.downloads
      ++ record { filename = filename; content = content; content_type = content_type } ∷ [];
}

-- `config?.k || default`
abbrev value_of : Json → String → String → Json
value_of config k default = or_else (get config k) (str default)

abbrev text_of : Json → String → String → String
text_of config k default = to_string (value_of config k default)

unfoldable pub column_line : List Json → String
unfolding to_upper
column_line r = template (
    "  \""
    ∷ to_string (at r 1)
    ∷ "\" "
    ∷ to_upper (to_string (at r 2))
    ∷ (if to_string (at r 3) == "NO" then " NOT NULL" else "")
    ∷ [])

abbrev lines_or_none : Option (List String) → List String
lines_or_none none = []
lines_or_none (some lines) = lines

-- The lines of each table, in the order in which the rows first name it.
unfoldable pub group_lines :
    List (String × List String) → List (List Json) → List (String × List String)
unfolding get_entry put_entry column_line
group_lines tables [] = tables
group_lines tables (r ∷ rows) =
    let name = to_string (at r 0) in
    group_lines
      (put_entry tables name (lines_or_none (get_entry tables name) ++ column_line r ∷ [])) rows

abbrev table_ddl : String × List String → String
table_ddl (name, lines) = template (
    "-- Live Backend Table DDL: "
    ∷ name
    ∷ "\nCREATE TABLE IF NOT EXISTS \""
    ∷ name
    ∷ "\" (\n"
    ∷ join ",\n" lines
    ∷ "\n);"
    ∷ [])

unfoldable pub live_ddl : List (List Json) → String
unfolding group_lines join
live_ddl rows = join "\n\n" (map table_ddl (group_lines [] rows))

unfoldable pub live_schema : Json → String → List (List Json) → String
unfolding live_ddl
live_schema config now rows = template (
    "-- ArcOps PostgreSQL Backend Schema (Fetched Live via DBMux RPC API)\n-- API Provider: "
    ∷ text_of config "id" "postgres"
    ∷ "\n-- Generated at: "
    ∷ now
    ∷ "\n\n"
    ∷ live_ddl rows
    ∷ [])

unfoldable pub redis_conf : Json → String → Database → String
redis_conf config now db = template (
    "# ArcOps Redis Configuration (Fetched Live via DBMux RPC API)\n"
    ∷ "# Provider ID: "
    ∷ text_of config "id" "test-redis"
    ∷ "\n"
    ∷ "# Status: "
    ∷ text_of config "status" "active"
    ∷ "\n"
    ∷ "# Endpoint: "
    ∷ text_of config "endpoint" db.endpoint
    ∷ "\n"
    ∷ "# Generated at: "
    ∷ now
    ∷ "\n"
    ∷ "\n"
    ∷ "port 6379\n"
    ∷ "bind 0.0.0.0\n"
    ∷ "maxmemory 50mb\n"
    ∷ "maxmemory-policy allkeys-lru\n"
    ∷ "appendonly yes\n"
    ∷ "appendfsync everysec\n"
    ∷ "\n"
    ∷ "# DBMux Engine Bindings\n"
    ∷ "kv.provider = \"redis\"\n"
    ∷ "kv.dsn = \""
    ∷ text_of config "endpoint" db.endpoint
    ∷ "\"\n"
    ∷ [])

unfoldable pub mysql_schema : Json → Database → String
mysql_schema config db = template (
    "-- ArcOps MySQL Schema (Fetched Live via DBMux RPC API)\n"
    ∷ "-- Provider ID: "
    ∷ text_of config "id" "mysql"
    ∷ "\n"
    ∷ "-- Endpoint: "
    ∷ text_of config "endpoint" db.endpoint
    ∷ "\n"
    ∷ "\n"
    ∷ "CREATE TABLE IF NOT EXISTS tenant_records (\n"
    ∷ "    id VARCHAR(64) PRIMARY KEY,\n"
    ∷ "    tenant_id VARCHAR(64) NOT NULL,\n"
    ∷ "    data JSON NOT NULL,\n"
    ∷ "    created_at DATETIME DEFAULT CURRENT_TIMESTAMP,\n"
    ∷ "    INDEX idx_tenant (tenant_id)\n"
    ∷ ") ENGINE=InnoDB DEFAULT CHARSET=utf8mb4;"
    ∷ [])

unfoldable pub mongo_schema : Json → Database → Json
mongo_schema config db = object (
    ("api_provider", value_of config "id" "mongodb")
    ∷ ("endpoint", value_of config "endpoint" db.endpoint)
    ∷ ("status", value_of config "status" "active")
    ∷ (
      "schema_validator",
      object (
          ("bsonType", str "object")
          ∷ ("required", array (str "tenant_id" ∷ str "content" ∷ []))
          ∷ (
            "properties",
            object (
                ("tenant_id", object (("bsonType", str "string") ∷ []))
                ∷ ("content", object (("bsonType", str "string") ∷ []))
                ∷ []),
          )
          ∷ []),
    )
    ∷ [])

unfoldable pub vector_schema : Json → Database → Json
vector_schema config db = object (
    ("api_provider", value_of config "id" "vector")
    ∷ ("endpoint", value_of config "endpoint" db.endpoint)
    ∷ ("collection", str "arcops_embeddings")
    ∷ ("dimension", num 1536)
    ∷ ("metric", str "cosine")
    ∷ [])

abbrev fallback : Database → Json
fallback db = object (("provider", str db.id) ∷ ("endpoint", str db.endpoint) ∷ [])

-- The `switch` on the identifier.
unfoldable pub config_file : Json → String → Database → Method Panel Unit
unfolding redis_conf mysql_schema mongo_schema vector_schema pretty
config_file config now db =
    if db.id == "redis"
    then download_file "arcops_redis.conf" (redis_conf config now db) "text/plain"
    else if db.id == "mysql"
    then download_file "arcops_mysql_schema.sql" (mysql_schema config db) "application/sql"
    else if db.id == "mongodb"
    then download_file "arcops_mongo_schema.json" (pretty (mongo_schema config db))
        "application/json"
    else if db.id == "vector"
    then download_file "arcops_vector_schema.json" (pretty (vector_schema config db))
        "application/json"
    else download_file (template ("arcops_" ∷ db.id ∷ "_config.json" ∷ []))
        (pretty (or_else config (fallback db))) "application/json"

-- The file of the rows, if there are any; whether one was made.
unfoldable pub live_file : Json → String → List (List Json) → Method Panel Bool
unfolding names_inherited live_schema
live_file config now [] = pure false
live_file config now (r ∷ rows) = if names_inherited (r ∷ rows) then throw type_error else (do
  download_file "arcops_pg_backend_live_schema.sql" (live_schema config now (r ∷ rows))
      "application/sql"
  pure true)

module _ (d : Decoder) (client : Client) where
  -- The live schema, for PostgreSQL; an error or an empty answer falls back on the configuration.
  unfoldable pub try_live : Json → String → Database → Method Panel Bool
  unfolding live_file
  try_live config now db =
      if db.id == "postgres"
      then catch
          (do res ← io (execute_sql d client col_sql undefined); live_file config now res.rows)
          (λ _. pure false)
      else pure false

  unfoldable pub download_schema : String → Database → Method Panel Unit
  download_schema now db = do
    config ← io (get_backend_config client db.id)
    done ← try_live config now db
    if done then pure tt else config_file config now db
