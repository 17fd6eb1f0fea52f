-- ===== src/Pages/SqlDrawer.antt =====
-- `SqlDrawer`, web/src/components/sql-drawer.tsx: the query, its draft, and running it.
pub mod View
pub mod Results
pub mod Tests
use arcops.Prelude.{
  ℕ, String, Bool, true, false, not, ◌||◌, Option, none, some, List, [], ◌∷◌, map, ◌==◌,
  if◌then◌else◌,
}
use arcops.Js.Text.{includes}
use arcops.Js.Json.{
  Json, Fields, end, field, undefined, obj, num, object, array, is_array, array_of,
}
use arcops.Js.Exec.{pure, catch, finally, ◌>>=◌, ◌>>◌}
use arcops.Js.World.{World, Storage}
use arcops.Js.World.WebStorage.{get_item, put}
use arcops.Js.World.Session.{is_text, stored_token}
use arcops.Js.World.Object.{Object, Method, io, read, update}
use arcops.Web.DbmuxSdk.{Client}
use arcops.Web.Tenant.{Decoder}
use arcops.Web.Dbmux.{SqlResult, execute_sql}

pub record Drawer : Type 0 where
  pub query : String
  pub results : Option (List Json)
  pub columns : List String
  pub exec_time : Option ℕ
  pub executing : Bool

abbrev first_query : String
first_query = "SELECT * FROM telemetry_metrics LIMIT 10;"

abbrev draft_or_first : Option String → String
draft_or_first none = first_query
draft_or_first (some draft) =
    if draft == "" || includes draft "auth_users" then first_query else draft

-- The query that the drawer opens with, and the draft that it keeps.
unfoldable pub first_draft : Storage → String
unfolding get_item includes
first_draft stored = draft_or_first (get_item stored "arcops_sql_draft")

unfoldable pub save_draft : String → World → World
unfolding put
save_draft query w = record w { local = put w.local "arcops_sql_draft" query }

-- A query that another part of the page asks for.
unfoldable pub set_query : String → Drawer → Drawer
set_query query p = if query == "" then p else record p { query = query }

-- Whether the open drawer sends the user to `/login`, and whether it shows.
unfoldable pub sends_to_login : Bool → Storage → Bool
unfolding stored_token
sends_to_login is_open stored = if is_open then not (is_text (stored_token stored)) else false

unfoldable pub shows : Bool → Storage → Bool
unfolding stored_token
shows is_open stored = if is_open then is_text (stored_token stored) else false

-- What `executeSQL` returns, as a value.
abbrev value_of : SqlResult → Json
value_of res = object (
    ("columns", array res.columns)
    ∷ ("rows", array (map array res.rows))
    ∷ ("rowCount", num res.row_count)
    ∷ [])

-- `Object.keys` of a record, and of the first one if there is any.
abbrev field_names : Fields → List String
field_names end = []
field_names (field k v fs) = k ∷ field_names fs

abbrev first_keys : List Json → List String
first_keys [] = []
first_keys (obj fs ∷ vs) = field_names fs
first_keys (v ∷ vs) = []

-- Only an array is shown as rows.
abbrev shown : Json → Drawer → Drawer
shown res p =
    if is_array res
    then record p { results = some (array_of res); columns = first_keys (array_of res) }
    else record p { results = some []; columns = [] }

module _ (d : Decoder) (client : Client) where
  -- `runQuery`, with the time that it took
  unfoldable pub run_query : ℕ → Method Drawer Unit
  run_query elapsed = do
    query ← read (λ p. p.query)
    update λ p. record p { executing = true }
    finally
        (catch
          (do
            res ← io (execute_sql d client query undefined)
            update λ p. shown (value_of res) (record p { exec_time = some elapsed }))
          (λ _. update λ p. record p { results = some []; columns = []; exec_time = some 0 }))
        (λ o. record o { this = record o.this { executing = false } })
