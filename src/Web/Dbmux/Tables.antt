-- ===== src/Web/Dbmux/Tables.antt =====
-- `getTables`, `getSchemaTables` and `getTelemetryMetrics` of web/src/lib/dbmux.ts.
use arcops.Prelude.{
  ℕ, String, Bool, true, Option, none, some, List, [], ◌∷◌, ◌++◌, map, any, get_elem?, ◌==◌,
  if◌then◌else◌,
}
use arcops.Js.Json.{Json, undefined, str, truthy, or_else, to_string}
use arcops.Js.Exec.{throw, type_error, pure, gets, catch, ◌>>=◌}
use arcops.Js.World.{Io}
use arcops.Js.World.Object.{inherited}
use arcops.Web.DbmuxSdk.{Client}
use arcops.Web.Tenant.{Decoder, get_tenant_id}
use arcops.Web.Dbmux.{SqlResult, to_number, count_or, execute_sql}
use arcops.Web.Dbmux.Queries.{tables_sql, schema_sql, metrics_sql}

pub record DbTableInfo : Type 0 where
  pub name : String
  pub columns : ℕ
  pub rows : ℕ
  pub size : String
  pub realtime : Bool

-- `r[i]` of a row
abbrev pub at : List Json → ℕ → Json
at r i = elim (get_elem? r i) [ none ↦ undefined | some v ↦ v ]

abbrev table_info : List Json → DbTableInfo
table_info r = record {
  name = to_string (at r 0);
  columns = count_or (to_number (at r 1)) 0;
  rows = count_or (to_number (at r 2)) 0;
  size = to_string (or_else (at r 3) (str "16 kB"));
  realtime = true;
}

pub record Column : Type 0 where
  pub name : String
  pub kind : String
  pub is_pk : Bool

pub record Table : Type 0 where
  pub name : String
  pub columns : List Column

abbrev pub column_of : List Json → Column
column_of r = record {
  name = to_string (at r 1);
  kind = to_string (at r 2);
  is_pk = truthy (at r 3);
}

-- `tableMap[name].columns.push(column)`, behind `if (!tableMap[name]) tableMap[name] = …`
unfoldable pub add_column : List Table → String → Column → List Table
add_column [] name column = record { name = name; columns = column ∷ [] } ∷ []
add_column (t ∷ ts) name column =
    if t.name == name
    then record t { columns = t.columns ++ column ∷ [] } ∷ ts
    else t ∷ add_column ts name column

-- The tables in the order in which the rows first name them; `Object.values` puts names that are
-- array indices first, which is not modelled.
unfoldable pub group_rows : List Table → List (List Json) → List Table
unfolding add_column
group_rows tables [] = tables
group_rows tables (r ∷ rows) =
    group_rows (add_column tables (to_string (at r 0)) (column_of r)) rows

-- `tableMap[name]` is there and has no `columns`.
unfoldable pub names_inherited : List (List Json) → Bool
names_inherited rows = any (λ r. any (λ k. k == to_string (at r 0)) inherited) rows

grouped : List (List Json) → Io (List Table)
unfolding names_inherited group_rows
grouped rows = if names_inherited rows then throw type_error else pure (group_rows [] rows)

pub record Metrics : Type 0 where
  pub throughput : List (String × Option ℕ)
  pub latency : List (String × Option ℕ)
  pub leases : List (String × Option ℕ)

abbrev no_metrics : Metrics
no_metrics = record { throughput = []; latency = []; leases = [] }

-- The points of one metric; `none` is NaN.
unfoldable pub points : String → List (List Json) → List (String × Option ℕ)
points metric [] = []
points metric (r ∷ rows) =
    let rest = points metric rows in
    if to_string (at r 0) == metric then (to_string (at r 1), to_number (at r 2)) ∷ rest else rest

abbrev if_any : List (String × Option ℕ) → Metrics → Metrics
if_any [] m = no_metrics
if_any (p ∷ ps) m = m

unfoldable pub metrics_of : SqlResult → Metrics
unfolding points
metrics_of res = if_any (points "throughput" res.rows) (record {
  throughput = points "throughput" res.rows;
  latency = points "latency" res.rows;
  leases = points "leases" res.rows;
})

module _ (d : Decoder) (c : Client) where
  unfoldable pub get_tables : Io (List DbTableInfo)
  unfolding execute_sql
  get_tables = do
    tenant ← gets (λ w. get_tenant_id d w.local)
    if truthy tenant
        then (do res ← execute_sql d c tables_sql tenant; pure (map table_info res.rows))
        else pure []

  unfoldable pub get_schema_tables : Io (List Table)
  unfolding execute_sql grouped
  get_schema_tables = do
    tenant ← gets (λ w. get_tenant_id d w.local)
    if truthy tenant
        then (do res ← execute_sql d c schema_sql tenant; grouped res.rows)
        else pure []

  unfoldable pub get_telemetry_metrics : Io Metrics
  unfolding execute_sql metrics_of
  get_telemetry_metrics =
      catch (do res ← execute_sql d c metrics_sql undefined; pure (metrics_of res))
        (λ _. pure no_metrics)
