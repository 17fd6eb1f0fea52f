-- ===== src/Web/Dbmux/Tests.antt =====
-- Running SQL and reading the schema on concrete inputs.
use arcops.Prelude.{◌≡◌, arith, refl, true, false, none, List, [], ◌∷◌}
use arcops.Js.Json.{Json, undefined, num, str, bool, object, array, get, to_string, truthy}
use arcops.Js.Exec.{ok}
use arcops.Js.World.{World, answer, read_json}
use arcops.Js.World.Sample.{world, reply_json}
use arcops.Js.World.WebStorage.{get_item}
use arcops.Sdk.Mask.{pos}
use arcops.Web.Sql.{split_sql_statements}
use arcops.Web.DbmuxSdk.{Client}
use arcops.Web.Tenant.{Decoder, get_tenant_id}
use arcops.Web.Dbmux.{SqlResult, to_number, active_provider, execute_sql}
use arcops.Web.Dbmux.Shape.{IsTable, execute_sql-IsTable}
use arcops.Web.Dbmux.Tables.{group_rows}
use arcops.Web.Dbmux.Grouping.{columns_in, columns_of, columns_in-group_rows}

abbrev decoder : Decoder
decoder = record { parse = λ s. none; atob = λ s. none; decode_uri_component = λ s. none }

abbrev client : Client
client = record {
  base_url = "http://localhost:8000/rpc";
  service_key = none;
  anon_key = none;
  auth_token = none;
  transport = none;
  capabilities_mask = pos 0;
}

abbrev start : World
start = world [] (answer (reply_json 200 [] (object [])) ∷ [])

no_tenant : truthy (active_provider decoder client undefined start) ≡ false
unfolding active_provider get_tenant_id get_item
no_tenant = refl

-- A row without a value for the second column gets an empty cell.
abbrev ragged : World
ragged = world [] (
    answer (
      reply_json 200 [] (
        object (
          ("columns", array (str "a" ∷ str "b" ∷ []))
          ∷ ("rows", array (object (("a", num 1) ∷ []) ∷ []))
          ∷ [])))
    ∷ [])

abbrev filled : SqlResult
filled = record {
  columns = str "a" ∷ str "b" ∷ [];
  rows = (num 1 ∷ str "" ∷ []) ∷ [];
  row_count = 1;
}

ragged_result : (execute_sql decoder client "SELECT 1" (str "main") ragged).0 ≡ ok filled
unfolding execute_sql get_item get split_sql_statements read_json to_string to_number
ragged_result = refl

short-not_IsTable : ¬ IsTable (record filled { rows = (num 1 ∷ []) ∷ [] })
unfolding IsTable
short-not_IsTable (h, t) = omega (arith, h)

execute_sql-IsTable_example : IsTable filled
execute_sql-IsTable_example =
    execute_sql-IsTable decoder client "SELECT 1" (str "main") ragged filled ragged_result

abbrev rows : List (List Json)
rows =
    (str "users" ∷ str "id" ∷ str "uuid" ∷ bool true ∷ [])
    ∷ (str "posts" ∷ str "id" ∷ str "uuid" ∷ bool true ∷ [])
    ∷ (str "users" ∷ str "name" ∷ str "text" ∷ bool false ∷ [])
    ∷ []

columns_in-group_rows_example : columns_in (group_rows [] rows) "users" ≡ columns_of rows "users"
columns_in-group_rows_example = columns_in-group_rows rows "users"
