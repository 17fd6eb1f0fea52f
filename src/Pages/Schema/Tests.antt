-- ===== src/Pages/Schema/Tests.antt =====
-- The graph on concrete inputs.
use arcops.Prelude.{ℕ, String, ◌≡◌, refl, true, false, none, some, List, [], ◌∷◌, map, All, filter}
use arcops.Js.Json.{Json, str, null, to_string}
use arcops.Js.Exec.{ok}
use arcops.Js.World.Object.{Object}
use arcops.Js.World.Sample.{world}
use arcops.Sdk.Mask.{pos}
use arcops.Web.DbmuxSdk.{Client}
use arcops.Web.Tenant.{Decoder}
use arcops.Pages.Schema.{ColumnMeta, add_rows}
use arcops.Pages.Schema.Graph.{
  Node, Visualizer, filtered_nodes, auto_layout, ddl, fetch_live_schema,
}
use arcops.Pages.Schema.Merge.{column_in, described, is_row_of}
use arcops.Pages.Schema.Keys.{IsKeyed, add_rows-IsGraph}
use arcops.Pages.Schema.Layout.{IsWithin, AreApart, auto_layout-AreApart}
use arcops.Pages.Schema.Loading.{IsDrawn, fetch_live_schema-IsDrawn}

abbrev row : String → String → String → String → List Json
row table column kind constraint =
    str table ∷ str column ∷ str kind ∷ str "NO" ∷ null ∷ str constraint ∷ []

-- The identifier of an order is a primary key and unique; the user of an order is neither.
abbrev rows : List (List Json)
rows =
    row "orders" "id" "integer" "UNIQUE"
    ∷ row "orders" "id" "integer" "PRIMARY KEY"
    ∷ row "orders" "user" "character varying(20)" ""
    ∷ row "users" "id" "bigint" "PRIMARY KEY"
    ∷ []

abbrev order_id : ColumnMeta
order_id = record {
  name = "id";
  kind = "int4";
  is_nullable = false;
  is_identity = false;
  is_pk = true;
  is_unique = true;
}

merge_test : column_in (add_rows [] rows) "orders" "id" ≡ some order_id
unfolding add_rows to_string
merge_test = refl

ddl_test :
    ddl (add_rows [] (row "users" "id" "bigint" "PRIMARY KEY" ∷ []))
    ≡ "CREATE TABLE users (\n  id INT8 PRIMARY KEY NOT NULL\n);"
unfolding ddl add_rows to_string
ddl_test = refl

add_rows-IsGraph_example :
    IsKeyed (add_rows [] rows)
    × (column_in (add_rows [] rows) "orders" "id"
        ≡ described (filter (is_row_of "orders" "id") rows))
add_rows-IsGraph_example = add_rows-IsGraph rows "orders" "id"

abbrev node : String → Node
node name = record { id = name; x = 0; y = 0; label = name; columns = [] }

abbrev nodes : List Node
nodes = node "a" ∷ node "b" ∷ node "c" ∷ node "d" ∷ []

search_test : filtered_nodes " B" (node "a b" ∷ node "ab" ∷ []) ≡ node "a b" ∷ []
unfolding filtered_nodes
search_test = refl

auto_layout-AreApart_example : All IsWithin (auto_layout 0 nodes) × AreApart (auto_layout 0 nodes)
auto_layout-AreApart_example = auto_layout-AreApart nodes

places_test :
    map {B = ℕ × ℕ} (λ n. (n.x, n.y)) (auto_layout 0 nodes)
    ≡ (100, 80) ∷ (500, 80) ∷ (900, 80) ∷ (100, 520) ∷ []
unfolding auto_layout
places_test = refl

abbrev decoder : Decoder
decoder = record { parse = λ s. none; atob = λ s. none; decode_uri_component = λ s. none }

abbrev client : Client
client = record {
  base_url = "http://localhost:8000/rpc";
  service_key = none;
  anon_key = none;
  auth_token = none;
  transport = none;
  capabilities_mask = pos 0;
}

abbrev start : Object Visualizer
start = record {
  this = record {
    nodes = nodes;
    edges = [];
    raw_tables = [];
    search_query = "";
    copied_sql = false;
    loading = true;
    clipboard = none;
  };
  world = world (("arcauth_user", "7") ∷ []) [];
}

fetch_live_schema-IsDrawn_example :
    ((fetch_live_schema decoder client start).0 ≡ ok tt)
    × (((fetch_live_schema decoder client start).1.this.loading ≡ false)
        × IsDrawn (fetch_live_schema decoder client start).1.this)
fetch_live_schema-IsDrawn_example = fetch_live_schema-IsDrawn decoder client start
