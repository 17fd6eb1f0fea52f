-- ===== src/Pages/Databases/Handlers.antt =====
-- What the panel of databases does, web/src/components/db-bento.tsx: it registers a database of the
-- user, switches modes, and runs a script.
use arcops.Prelude.{
  ℕ, String, Bool, true, false, not, ◌&&◌, Option, none, some, List, [], ◌∷◌, map, length, find,
  ◌==◌, if◌then◌else◌,
}
use arcops.Js.Text.{template, decimal, trim}
use arcops.Js.Json.{Json, undefined, str, object, truthy, or_else, to_string}
use arcops.Js.Exec.{pure, throw, catch, finally, prop, plain_error, ◌>>=◌, ◌>>◌}
use arcops.Js.World.{Storage, Request, fetch, read_json, is_ok, alert, set_local}
use arcops.Js.World.WebStorage.{get_item, put}
use arcops.Js.World.Session.{is_text}
use arcops.Js.World.Object.{Object, Method, io, read, update}
use arcops.Web.DbmuxSdk.{Client}
use arcops.Web.Tenant.{Decoder}
use arcops.Web.Dbmux.{SqlResult, count_or, execute_sql}
use arcops.Pages.Databases.Queries.{size_sql}
use arcops.Pages.Databases.{Database, Panel, dsn_key, mode_key, size_in}

abbrev pub register_request : String → String → String → Request
register_request gateway dsn provider = record {
  url = template (gateway ∷ "/api/gateway/register-db" ∷ []);
  method = "POST";
  headers = ("Content-Type", "application/json") ∷ [];
  credentials = true;
  body = some (object (("dsn", str dsn) ∷ ("provider", str provider) ∷ []));
}

unfoldable pub connected : String → Json → Database → Database
connected id token db =
    if db.id == id
    then record db { status = "byod"; byod_dsn = token; is_byod_connected = true }
    else db

-- What an answer that is ok does: two entries of localStorage, and the list.
unfoldable pub keep_dsn : String → Json → Method Panel Unit
unfolding dsn_key mode_key connected
keep_dsn id token = do
  io (set_local (dsn_key id) (to_string token))
  io (set_local (mode_key id) "byod")
  update λ p. record p {
    databases = map (connected id token) p.databases;
    dsn_input = "";
    active_db = none;
  }

unfoldable pub register : String → String → Method Panel Unit
register gateway id = do
  dsn ← read (λ p. p.dsn_input)
  response ← io (fetch (register_request gateway dsn id))
  body ← io (read_json response)
  if is_ok response then (do token ← prop body "encrypted_dsn"; keep_dsn id token) else (do
    message ← prop body "message"
    throw (plain_error (to_string (or_else message (str "Encryption failed")))))

-- `handleRegisterByod`
unfoldable pub register_active : String → Option Database → Method Panel Unit
register_active gateway none = pure tt
register_active gateway (some db) = do
  update λ p. record p { is_encrypting = true }
  finally
      (catch (register gateway db.id)
        (λ e. io (alert (template ("BYODB Registration failed: " ∷ e.message ∷ [])))))
      (λ o. record o { this = record o.this { is_encrypting = false } })

unfoldable pub register_byod : String → Method Panel Unit
unfolding trim
register_byod gateway = do
  panel ← read (λ p. p)
  if trim panel.dsn_input == "" then pure tt else register_active gateway panel.active_db

abbrev pub other_mode : String → String
other_mode status = if status == "managed" then "byod" else "managed"

-- The databases with the mode of those of an identifier switched, and the modes that are stored.
unfoldable pub switch_all : String → List Database → Storage → List Database × Storage
switch_all id [] stored = ([], stored)
switch_all id (db ∷ dbs) stored =
    let mode = other_mode db.status in
    let rest = switch_all id dbs (if db.id == id then put stored (mode_key id) mode else stored) in
    ((if db.id == id then record db { status = mode } else db) ∷ rest.0, rest.1)

abbrev switched : String → Object Panel → Object Panel
switched id o = record {
  this = record o.this { databases = (switch_all id o.this.databases o.world.local).0 };
  world = record o.world { local = (switch_all id o.this.databases o.world.local).1 };
}

-- Whether a managed database has nothing to connect to.
unfoldable pub lacks_dsn : Database → Object Panel → Bool
unfolding get_item dsn_key trim
lacks_dsn db o =
    (db.status == "managed")
    && (not (is_text (get_item o.world.local (dsn_key db.id)))
        && (not (truthy db.byod_dsn) && (trim o.this.dsn_input == "")))

abbrev pub cannot_switch : Database → String
cannot_switch db = template (
    "Cannot switch " ∷ db.name ∷ " to BYODB mode: No connection DSN registered."
    ∷ " Please enter a valid DSN string below and click \"Encrypt & Connect BYODB\"." ∷ [])

-- `toggleManagedByodMode`
unfoldable pub toggle_found : String → Option Database → Method Panel Unit
unfolding lacks_dsn switch_all
toggle_found id none o = pure tt o
toggle_found id (some db) o =
    if lacks_dsn db o then io (alert (cannot_switch db)) o else pure tt (switched id o)

unfoldable pub toggle_mode : String → Method Panel Unit
unfolding toggle_found
toggle_mode id o = toggle_found id (find (λ db. db.id == id) o.this.databases) o

-- `handleExecuteSqlScript`
unfoldable pub with_size : Option ℕ → List Database → List Database
with_size none dbs = dbs
with_size (some size) dbs =
    map (λ db. if db.id == "postgres" then record db { quota_used = size } else db) dbs

abbrev pub executed : SqlResult → String
executed res = template (
    "✅ Executed successfully! Rows affected / returned: "
    ∷ decimal (count_or (some res.row_count) (length res.rows))
    ∷ [])

module _ (d : Decoder) (client : Client) where
  unfoldable pub refresh_size : Method Panel Unit
  unfolding size_in with_size
  refresh_size = do
    res ← io (execute_sql d client size_sql undefined)
    update λ p. record p { databases = with_size (size_in res.rows) p.databases }

  unfoldable pub run_script : String → Method Panel Unit
  run_script sql = do
    res ← io (execute_sql d client sql undefined)
    update λ p. record p { sql_message = some (executed res); sql_script_input = "" }
    refresh_size

  unfoldable pub execute_sql_script : Method Panel Unit
  unfolding trim
  execute_sql_script = do
    sql ← read (λ p. p.sql_script_input)
    if trim sql == "" then pure tt else (do
      update λ p. record p { is_executing_sql = true; sql_message = none }
      finally
          (catch (run_script sql) (λ e. update λ p. record p {
            sql_message = some (template ("❌ SQL Execution failed: " ∷ e.message ∷ []));
          }))
          (λ o. record o { this = record o.this { is_executing_sql = false } }))
