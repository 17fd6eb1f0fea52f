-- ===== src/Pages/Databases.antt =====
-- `DbBento`, web/src/components/db-bento.tsx: the databases of a tenant, how they are loaded, and what
-- a card shows.
pub mod Handlers
pub mod Queries
pub mod SchemaFile
pub mod View
pub mod Modes
pub mod Stale
pub mod Register
pub mod Ids
pub mod Script
pub mod Tests
use arcops.Prelude.{
  ℕ, zero, suc, ◌+◌, ◌*◌, ◌/◌, String, Bool, true, false, not, ◌&&◌, ◌||◌, Option, none, some, List,
  [], ◌∷◌, ◌++◌, map, length, find, is_some, ◌==◌, if◌then◌else◌,
}
use arcops.Js.Text.{template, decimal, trim}
use arcops.Js.Json.{Json, undefined, null, str, object, get, truthy, or_else, to_string}
use arcops.Js.Exec.{Error, pure, throw, gets, catch, finally, prop, plain_error, ◌>>=◌, ◌>>◌}
use arcops.Js.World.{
  World, Io, Storage, Request, Response, fetch, read_json, is_ok, alert, set_local,
}
use arcops.Js.World.WebStorage.{get_item, put}
use arcops.Js.World.Session.{is_text, text_or, stored_token, stored_user}
use arcops.Js.World.Object.{Object, Method, io, read, update}
use arcops.Web.DbmuxSdk.{Client}
use arcops.Web.Tenant.{Decoder}
use arcops.Web.Dbmux.{SqlResult, to_number, count_or, execute_sql}
use arcops.Web.Dbmux.Tables.{at}
use arcops.Pages.Databases.Queries.{size_sql}

-- `DatabaseConfig`. The used quota is in hundredths of a megabyte, the texts of `status` are "managed",
-- "byod" and "configure" unless localStorage holds another one.
pub record Database : Type 0 where
  pub id : String
  pub name : String
  pub category : String
  pub icon_name : String
  pub status : String
  pub endpoint : String
  pub quota_max_mb : ℕ
  pub quota_used : ℕ
  pub byod_dsn : Json
  pub is_byod_connected : Bool

-- `unconfiguredDatabases`
abbrev plain : String → String → String → String → String → ℕ → Database
plain id name category icon_name endpoint quota_max_mb = record {
  id = id;
  name = name;
  category = category;
  icon_name = icon_name;
  status = "configure";
  endpoint = endpoint;
  quota_max_mb = quota_max_mb;
  quota_used = 0;
  byod_dsn = undefined;
  is_byod_connected = false;
}

abbrev pub postgres : Database
postgres =
    plain "postgres" "PostgreSQL" "Relational + PgVector" "postgres" "pg-pool.dbmux.internal:5432"
      750

abbrev pub redis : Database
redis = plain "redis" "Redis" "In-Memory Cache" "redis" "redis.dbmux.internal:6379" 50

abbrev pub mysql : Database
mysql = plain "mysql" "MySQL" "Relational DB" "mysql" "mysql-ext.aws.rds.com:3306" 0

abbrev pub mongodb : Database
mongodb = plain "mongodb" "MongoDB" "Document Store" "mongo" "cluster0.mongodb.net:27017" 0

abbrev pub vector : Database
vector =
    plain "vector" "Vector DB" "Embeddings & Cosine Search" "vector"
      "clickhouse-vector.internal:8123" 0

abbrev pub unconfigured_databases : List Database
unconfigured_databases = postgres ∷ redis ∷ mysql ∷ mongodb ∷ vector ∷ []

-- A file that the page makes and downloads.
pub record Download : Type 0 where
  pub filename : String
  pub content : String
  pub content_type : String

pub record Panel : Type 0 where
  pub user : Json
  pub databases : List Database
  pub active_db : Option Database
  pub show_auth_modal : Bool
  pub show_sql_editor_modal : Bool
  pub dsn_input : String
  pub sql_script_input : String
  pub is_encrypting : Bool
  pub is_executing_sql : Bool
  pub sql_message : Option String
  pub downloads : List Download

-- `checkUser`
abbrev parsed_or_null : Option Json → Json
parsed_or_null none = null
parsed_or_null (some v) = v

unfoldable pub user_of : Decoder → Storage → Json
unfolding stored_token stored_user
user_of d stored =
    if is_text (stored_user stored) && is_text (stored_token stored)
    then parsed_or_null (d.parse (text_or (stored_user stored) ""))
    else null

abbrev pub check_user : Decoder → Object Panel → Object Panel
check_user d o = record o { this = record o.this { user = user_of d o.world.local } }

-- The keys of a database in localStorage.
unfoldable pub dsn_key : String → String
dsn_key id = template ("byod_" ∷ id ∷ "_dsn" ∷ [])

unfoldable pub mode_key : String → String
mode_key id = template ("db_mode_" ∷ id ∷ [])

abbrev pub text_or_undefined : Option String → Json
text_or_undefined none = undefined
text_or_undefined (some s) = if s == "" then undefined else str s

unfoldable pub with_dsn : Storage → Database → Database
unfolding get_item dsn_key
with_dsn stored db = record db {
  byod_dsn = text_or_undefined (get_item stored (dsn_key db.id));
  is_byod_connected = is_text (get_item stored (dsn_key db.id));
}

-- PostgreSQL and Redis keep their mode in localStorage; the others have the mode of their DSN.
unfoldable pub with_mode : Storage → Database → Database
unfolding get_item mode_key
with_mode stored db = record db { status = text_or (get_item stored (mode_key db.id)) "managed" }

unfoldable pub with_mode_of_dsn : Storage → String → Database → Database
unfolding get_item dsn_key
with_mode_of_dsn stored without db = record db {
  status = if is_text (get_item stored (dsn_key db.id)) then "byod" else without;
}

unfoldable pub tenant_databases : Storage → ℕ → List Database
unfolding with_dsn with_mode with_mode_of_dsn
tenant_databases stored size =
    with_dsn stored (with_mode stored (record postgres { quota_used = size }))
    ∷ with_dsn stored (with_mode stored redis)
    ∷ with_dsn stored (with_mode_of_dsn stored "configure" mysql)
    ∷ with_dsn stored (with_mode_of_dsn stored "configure" mongodb)
    ∷ with_dsn stored (with_mode_of_dsn stored "managed" vector)
    ∷ []

-- `+(bytes / (1024 * 1024)).toFixed(2)` in hundredths, which rounds half up.
abbrev pub hundredths : ℕ → ℕ
hundredths bytes = (bytes * 100 + 524288) / 1048576

-- The size that the first cell of the first row gives, if that is a number above 0.
abbrev size_or_none : Option ℕ → Option ℕ
size_or_none none = none
size_or_none (some zero) = none
size_or_none (some (suc n)) = some (hundredths (suc n))

unfoldable pub size_in : List (List Json) → Option ℕ
unfolding to_number
size_in [] = none
size_in (r ∷ rows) = size_or_none (to_number (at r 0))

abbrev size_or : ℕ → Option ℕ → ℕ
size_or n none = n
size_or n (some size) = size

module _ (d : Decoder) (client : Client) where
  unfoldable pub real_size : Io ℕ
  unfolding size_in
  real_size =
      catch (do res ← execute_sql d client size_sql undefined; pure (size_or 0 (size_in res.rows)))
        (λ _. pure 0)

  -- The effect on the user, with `loadTenantDatabases`
  unfoldable pub load_tenant_databases : Method Panel Unit
  load_tenant_databases = do
    user ← read (λ p. p.user)
    if truthy user
        then (do
          size ← io (real_size)
          stored ← io (gets (λ w. w.local))
          update λ p. record p { databases = tenant_databases stored size })
        else update (λ p. record p { databases = unconfigured_databases })

-- `handleCardClick`
unfoldable pub card_click : Database → Panel → Panel
card_click db p =
    if truthy p.user then record p { active_db = some db } else record p { show_auth_modal = true }

-- What a card shows of its database.
unfoldable pub card_label : Json → Database → String
card_label user db =
    if truthy user && (db.status == "managed")
    then "Managed"
    else if truthy user && ((db.status == "byod") || db.is_byod_connected)
    then "BYOD Active"
    else "Configure"
