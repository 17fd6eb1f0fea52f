-- ===== src/Pages/Databases/Tests.antt =====
-- The panel on concrete inputs.
use arcops.Prelude.{String, ◌≡◌, refl, false, none, some, List, [], ◌∷◌, inl, inr, ◌==◌}
use arcops.Prelude.Steps.{Reaches, here, next}
use arcops.Js.Text.{trim}
use arcops.Js.Json.{Json, str, object, array, undefined, get}
use arcops.Js.Exec.{ok, err}
use arcops.Js.World.{Storage, Response, Reply, answer, fetch, network_error, read_json}
use arcops.Js.World.WebStorage.{get_item}
use arcops.Js.World.Object.{Object}
use arcops.Js.World.Sample.{world, reply_json}
use arcops.Sdk.Mask.{pos}
use arcops.Web.DbmuxSdk.{Client}
use arcops.Web.Tenant.{Decoder}
use arcops.Web.Dbmux.{SqlResult, to_number, execute_sql}
use arcops.Web.Sql.{split_sql_statements}
use arcops.Pages.Databases.{
  Panel, postgres, mysql, tenant_databases, hundredths, unconfigured_databases,
  load_tenant_databases,
}
use arcops.Pages.Databases.Handlers.{
  lacks_dsn, toggle_mode, other_mode, register, register_byod, execute_sql_script,
}
use arcops.Pages.Databases.Queries.{size_sql}
use arcops.Pages.Databases.Modes.{IsDistinct, status_in, toggle_mode-load, toggle_mode-load_forgets}
use arcops.Pages.Databases.Register.{dsn_in, encrypting, register_byod-load}
use arcops.Pages.Databases.Ids
use arcops.Pages.Databases.Ids.{IsTenant, Reaches-IsTenant}
use arcops.Pages.Databases.Script.{failed, execute_sql_script-refresh_error}

-- 2.5 MB, and half of a hundredth, which rounds up.
hundredths_test : (hundredths 2621440 ≡ 250) × (hundredths 15729 ≡ 2)
hundredths_test = (refl, refl)

abbrev decoder : Decoder
decoder = record {
  parse = λ s. some (object (("id", str s) ∷ []));
  atob = λ s. none;
  decode_uri_component = λ s. none;
}

abbrev client : Client
client = record {
  base_url = "http://localhost:8000/rpc";
  service_key = none;
  anon_key = none;
  auth_token = none;
  transport = none;
  capabilities_mask = pos 0;
}

abbrev gateway : String
gateway = "http://localhost:8000"

abbrev stored : Storage
stored = ("arcauth_user", "7") ∷ ("byod_postgres_dsn", "sealed") ∷ []

-- A panel whose user is signed in, with MySQL open and a DSN typed.
abbrev panel : Panel
panel = record {
  user = str "7";
  databases = unconfigured_databases;
  active_db = some mysql;
  show_auth_modal = false;
  show_sql_editor_modal = false;
  dsn_input = "mysql://host/db";
  sql_script_input = "DELETE FROM t";
  is_encrypting = false;
  is_executing_sql = false;
  sql_message = none;
  downloads = [];
}

abbrev start : List Reply → Object Panel
start replies = record { this = panel; world = world stored replies }

distinct : IsDistinct unconfigured_databases
distinct = (
  (refl, (refl, (refl, (refl, tt)))),
  ((refl, (refl, (refl, tt))), ((refl, (refl, tt)), ((refl, tt), (tt, tt)))),
)

connectable : lacks_dsn postgres (start []) ≡ false
unfolding lacks_dsn
connectable = refl

toggle_mode-load_example :
    (status_in (toggle_mode "postgres" (start [])).1.this.databases "postgres"
      ≡ some (other_mode postgres.status))
    × (status_in (tenant_databases (toggle_mode "postgres" (start [])).1.world.local 0) "postgres"
        ≡ some (other_mode postgres.status))
toggle_mode-load_example =
    toggle_mode-load "postgres" postgres (start []) 0 (inl refl) distinct refl connectable

toggle_mode-load_forgets_example :
    status_in (tenant_databases (toggle_mode "mysql" (start [])).1.world.local 0) "mysql"
    ≡ status_in (tenant_databases (start []).world.local 0) "mysql"
toggle_mode-load_forgets_example = toggle_mode-load_forgets "mysql" (start []) 0 (inl refl)

abbrev sealed : Json
sealed = object (("encrypted_dsn", str "enc:1") ∷ [])

abbrev accepted : Response
accepted = reply_json 200 [] sealed

typed : (trim panel.dsn_input == "") ≡ false
unfolding trim
typed = refl

sealed_dsn : get sealed "encrypted_dsn" ≡ str "enc:1"
unfolding get
sealed_dsn = refl

abbrev connected : Object Panel
connected = (register_byod gateway (start (answer accepted ∷ []))).1

register_byod-load_example :
    (status_in (tenant_databases connected.world.local 0) "mysql" ≡ some "byod")
    × (dsn_in (tenant_databases connected.world.local 0) "mysql" ≡ str "enc:1")
register_byod-load_example =
    register_byod-load gateway mysql "enc:1" (start (answer accepted ∷ [])) accepted [] sealed 0
      (inr (inl refl)) refl typed refl refl refl refl sealed_dsn refl

unreachable : (register gateway "mysql" (encrypting (start []))).0 ≡ err network_error
unfolding register fetch
unreachable = refl

steps :
    Reaches
      (Ids.Step decoder client gateway)
      (start [])
      (toggle_mode "redis" (load_tenant_databases decoder client (start [])).1).1
steps = next (next here Ids.loads) (Ids.toggles "redis")

Reaches-IsTenant_example :
    IsTenant (toggle_mode "redis" (load_tenant_databases decoder client (start [])).1).1.this
Reaches-IsTenant_example = Reaches-IsTenant decoder client gateway steps refl

-- The script runs, and the network is down for the query of the size.
abbrev executing : Object Panel
executing =
    start
      (answer (reply_json 200 [] (object (("columns", array []) ∷ ("rows", array []) ∷ []))) ∷ [])

has_script : (trim panel.sql_script_input == "") ≡ false
unfolding trim
has_script = refl

abbrev nothing : SqlResult
nothing = record { columns = []; rows = []; row_count = 0 }

runs : (execute_sql decoder client "DELETE FROM t" undefined executing.world).0 ≡ ok nothing
unfolding execute_sql get_item get split_sql_statements read_json to_number
runs = refl

is_down :
    (execute_sql decoder client size_sql undefined
      (execute_sql decoder client "DELETE FROM t" undefined executing.world).1).0
    ≡ err network_error
unfolding execute_sql get_item get split_sql_statements read_json
is_down = refl

execute_sql_script-refresh_error_example :
    ((execute_sql_script decoder client executing).1.this.sql_message ≡ some (failed network_error))
    × ((execute_sql_script decoder client executing).1.this.sql_script_input ≡ "")
execute_sql_script-refresh_error_example =
    execute_sql_script-refresh_error decoder client executing nothing network_error has_script runs
      is_down
