-- ===== src/Pages/Schema/Graph.antt =====
-- The graph of the tables, how it is loaded, laid out and copied as DDL, in
-- web/src/components/schema-visualizer.tsx.
use arcops.Prelude.{
  ℕ, suc, ◌+◌, ◌*◌, ◌/◌, ◌%◌, String, Bool, true, false, not, Option, some, List, [], ◌∷◌, map,
  filter, ◌==◌, if◌then◌else◌,
}
use arcops.Js.Text.{template, decimal, join, trim, includes, to_lower, to_upper}
use arcops.Js.Json.{Json, undefined}
use arcops.Js.Exec.{Result, ok, err, pure, throw, catch, finally, type_error, ◌>>=◌, ◌>>◌}
use arcops.Js.World.{World, Io, set_timeout}
use arcops.Js.World.Object.{Method, io, read, update}
use arcops.Web.DbmuxSdk.{Client}
use arcops.Web.Tenant.{Decoder}
use arcops.Web.Dbmux.{SqlResult, no_rows, execute_sql}
use arcops.Web.Dbmux.Tables.{names_inherited}
use arcops.Pages.Schema.Queries.{col_sql, fk_sql}
use arcops.Pages.Schema.{ColumnMeta, TableMeta, FkRelation, add_rows, fk_of}

pub record Node : Type 0 where
  pub id : String
  pub x : ℕ
  pub y : ℕ
  pub label : String
  pub columns : List ColumnMeta

pub record Edge : Type 0 where
  pub id : String
  pub source : String
  pub target : String
  pub source_handle : String
  pub target_handle : String

-- The nodes, from an index on.
unfoldable pub flow_nodes : ℕ → List TableMeta → List Node
flow_nodes idx [] = []
flow_nodes idx (t ∷ ts) =
    record {
      id = t.id;
      x = 100 + (idx % 3) * 400;
      y = 80 + (idx / 3) * 440;
      label = t.name;
      columns = t.columns;
    }
    ∷ flow_nodes (suc idx) ts

unfoldable pub flow_edges : ℕ → List FkRelation → List Edge
flow_edges idx [] = []
flow_edges idx (fk ∷ fks) =
    record {
      id = template ("fk-" ∷ decimal idx ∷ []);
      source = fk.from_table;
      target = fk.to_table;
      source_handle = template (fk.from_column ∷ "-right" ∷ []);
      target_handle = template (fk.to_column ∷ "-left" ∷ []);
    }
    ∷ flow_edges (suc idx) fks

pub record Visualizer : Type 0 where
  pub nodes : List Node
  pub edges : List Edge
  pub raw_tables : List TableMeta
  pub search_query : String
  pub copied_sql : Bool
  pub loading : Bool
  pub clipboard : Option String

-- `Promise.all` of two calls: both run, and the first error counts. The second is sent behind the
-- first.
abbrev pair_of : {A B : Type 0} → Result A → Result B × World → Result (A × B) × World
pair_of (err e) (r, w) = (err e, w)
pair_of (ok a) (err e, w) = (err e, w)
pair_of (ok a) (ok b, w) = (ok (a, b), w)

abbrev pub both : {A B : Type 0} → Io A → Io B → Io (A × B)
both m n w = pair_of (m w).0 (n (m w).1)

unfoldable pub show_schema : List (List Json) → List (List Json) → Visualizer → Visualizer
unfolding add_rows flow_nodes flow_edges
show_schema rows fks p = record p {
  raw_tables = add_rows [] rows;
  nodes = flow_nodes 0 (add_rows [] rows);
  edges = flow_edges 0 (map fk_of fks);
}

-- A table named like a property that objects inherit makes the loop throw.
unfoldable pub show_rows : List (List Json) → List (List Json) → Method Visualizer Unit
unfolding names_inherited show_schema
show_rows rows fks =
    if names_inherited rows then throw type_error else update (show_schema rows fks)

abbrev pub nothing_shown : Visualizer → Visualizer
nothing_shown p = record p { raw_tables = []; nodes = []; edges = [] }

module _ (d : Decoder) (client : Client) where
  unfoldable pub schema_results : Io (SqlResult × SqlResult)
  schema_results =
      both (execute_sql d client col_sql undefined)
        (catch (execute_sql d client fk_sql undefined) (λ _. pure no_rows))

  -- `fetchLiveSchema`
  unfoldable pub fetch_live_schema : Method Visualizer Unit
  fetch_live_schema = do
    update λ p. record p { loading = true }
    finally
        (catch (do res ← io schema_results; show_rows res.0.rows res.1.rows)
          (λ _. update nothing_shown))
        (λ o. record o { this = record o.this { loading = false } })

-- `filteredNodes`
unfoldable pub filtered_nodes : String → List Node → List Node
unfolding trim to_lower includes
filtered_nodes query nodes =
    if trim query == ""
    then nodes
    else filter (λ n. includes (to_lower n.label) (to_lower query)) nodes

-- `handleAutoLayout`, from an index on
unfoldable pub auto_layout : ℕ → List Node → List Node
auto_layout idx [] = []
auto_layout idx (n ∷ ns) =
    record n { x = 100 + (idx % 3) * 400; y = 80 + (idx / 3) * 440 } ∷ auto_layout (suc idx) ns

-- `handleCopySql`
abbrev column_ddl : ColumnMeta → String
column_ddl c = template (
    "  "
    ∷ c.name
    ∷ " "
    ∷ to_upper c.kind
    ∷ (if c.is_pk then " PRIMARY KEY" else "")
    ∷ (if not c.is_nullable then " NOT NULL" else "")
    ∷ [])

abbrev table_ddl : TableMeta → String
table_ddl t =
    template
      ("CREATE TABLE " ∷ t.name ∷ " (\n" ∷ join ",\n" (map column_ddl t.columns) ∷ "\n);" ∷ [])

unfoldable pub ddl : List TableMeta → String
unfolding join to_upper
ddl tables = join "\n\n" (map table_ddl tables)

unfoldable pub copy_tables : List TableMeta → Method Visualizer Unit
unfolding ddl
copy_tables [] = pure tt
copy_tables (t ∷ ts) = do
  update λ p. record p { clipboard = some (ddl (t ∷ ts)); copied_sql = true }
  io set_timeout

unfoldable pub copy_sql : Method Visualizer Unit
copy_sql = do tables ← read (λ p. p.raw_tables); copy_tables tables
