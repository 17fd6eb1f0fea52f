-- ===== src/Pages/Schema/Loading.antt =====
-- How loading the graph ends.
use arcops.Prelude.{
  ℕ, suc, ◌≡◌, refl, ap, true, false, List, [], ◌∷◌, map, Bool-cases, inl, inr, arith,
}
use arcops.Js.Exec.{Result, ok, err, handle, continue}
use arcops.Js.World.Object.{Object, update}
use arcops.Web.DbmuxSdk.{Client}
use arcops.Web.Tenant.{Decoder}
use arcops.Web.Dbmux.{SqlResult}
use arcops.Web.Dbmux.Tables.{names_inherited}
use arcops.Pages.Schema.{TableMeta, add_rows}
use arcops.Pages.Schema.Graph.{
  Node, Visualizer, nothing_shown, flow_nodes, auto_layout, schema_results, show_schema, show_rows,
  fetch_live_schema,
}
use arcops.Pages.Schema.Layout.{auto_layout-flow_nodes}

-- The table that a node shows.
abbrev pub table_of : Node → TableMeta
table_of n = record { id = n.id; name = n.label; columns = n.columns }

-- The nodes show the tables, each of them and in their order, and stand at the places of the layout.
abbrev pub IsDrawn : Visualizer → Type 0
IsDrawn p = (map table_of p.nodes ≡ p.raw_tables) × (auto_layout 0 p.nodes ≡ p.nodes)

flow_nodes-table_of : (k : ℕ) (ts : List TableMeta) → map table_of (flow_nodes k ts) ≡ ts
unfolding flow_nodes
flow_nodes-table_of k [] = refl
flow_nodes-table_of k (t ∷ ts) = ap (λ l. t ∷ l) (flow_nodes-table_of (suc k) ts)

-- What the handler does with an outcome of the queries.
abbrev shown :
    Result (SqlResult × SqlResult) → Object Visualizer → Result (Unit {0}) × Object Visualizer
shown r o =
    handle (λ _. update nothing_shown) (continue (λ res. show_rows res.0.rows res.1.rows) (r, o))

shown-IsDrawn :
    (r : Result (SqlResult × SqlResult)) (o : Object Visualizer)
    → ((shown r o).0 ≡ ok tt) × IsDrawn (shown r o).1.this
unfolding show_rows show_schema auto_layout
shown-IsDrawn (ok res) o = elim (Bool-cases (names_inherited res.0.rows)) [
  | inl e ↦ ground (arith, e)
  | inr e ↦ ground (
    arith,
    e,
    auto_layout-flow_nodes (add_rows [] res.0.rows),
    flow_nodes-table_of 0 (add_rows [] res.0.rows),
  )
]
shown-IsDrawn (err e) o = ground arith

module _ (d : Decoder) (client : Client) where
  -- Loading the graph does not throw and ends, whatever the network and the servers do. Each
  -- table that it lists has one node then, with its name and columns, in the order of the tables, and
  -- laying the nodes out anew changes nothing.
  pub fetch_live_schema-IsDrawn :
      (o : Object Visualizer)
      → ((fetch_live_schema d client o).0 ≡ ok tt)
        × (((fetch_live_schema d client o).1.this.loading ≡ false)
            × IsDrawn (fetch_live_schema d client o).1.this)
  unfolding fetch_live_schema
  fetch_live_schema-IsDrawn o = ground (
    arith,
    shown-IsDrawn (schema_results d client o.world).0 (record {
      this = record o.this { loading = true };
      world = (schema_results d client o.world).1;
    }),
  )
