-- ===== src/Pages/SqlDrawer/Tests.antt =====
-- The drawer on concrete inputs.
use arcops.Prelude.{◌≡◌, refl, true, false, none, some, [], ◌∷◌}
use arcops.Js.Json.{undefined, null, bool, num, str, object, array, get}
use arcops.Js.Exec.{ok}
use arcops.Js.World.{answer}
use arcops.Js.World.Object.{Object}
use arcops.Js.World.Sample.{world, reply_json}
use arcops.Sdk.Mask.{pos}
use arcops.Web.DbmuxSdk.{Client}
use arcops.Web.Tenant.{Decoder}
use arcops.Web.Dbmux.{execute_sql}
use arcops.Pages.SqlDrawer.{Drawer, run_query}
use arcops.Pages.SqlDrawer.View.{
  Results, results_area, results_line, line_nums, cells, cell, bool_cell, null_cell, tenths, tab,
}
use arcops.Pages.SqlDrawer.Results.{time_of, zero_rows, run_query-shown}

abbrev decoder : Decoder
decoder = record {
  parse = λ s. some (object (("id", str s) ∷ []));
  atob = λ s. none;
  decode_uri_component = λ s. none;
}

abbrev client : Client
client = record {
  base_url = "http://localhost:8000/rpc";
  service_key = none;
  anon_key = none;
  auth_token = none;
  transport = none;
  capabilities_mask = pos 0;
}

-- One user is signed in, and the server answers one row.
abbrev start : Object Drawer
start = record {
  this = record {
    query = "SELECT 1";
    results = none;
    columns = [];
    exec_time = none;
    executing = false;
  };
  world = world (("arcauth_user", "7") ∷ []) (
      answer (
        reply_json 200 [] (
          object (
            ("columns", array (str "a" ∷ []))
            ∷ ("rows", array (object (("a", num 1) ∷ []) ∷ []))
            ∷ [])))
      ∷ []);
}

run_query-shown_example :
    ((run_query decoder client 53 start).0 ≡ ok tt)
    × (((run_query decoder client 53 start).1.this.executing ≡ false)
        × ((results_area (run_query decoder client 53 start).1.this ≡ Results.no_rows)
            × (results_line (run_query decoder client 53 start).1.this
                ≡ some (
                    zero_rows (
                      time_of
                        (execute_sql decoder client "SELECT 1" undefined start.world).0
                        53)))))
run_query-shown_example = run_query-shown decoder client 53 start

-- The third of three lines, and a table of two columns.
line_nums_test : line_nums "a\nb\n" ≡ 1 ∷ 2 ∷ 3 ∷ []
unfolding line_nums
line_nums_test = refl

row_test :
    cells ("a" ∷ "b" ∷ []) (object (("b", null) ∷ ("a", bool true) ∷ []))
    ≡ bool_cell true ∷ null_cell ∷ []
unfolding cell get
row_test = refl

tenths_test : (tenths 53 ≡ "5.3") × (tenths 120 ≡ "12")
unfolding tenths
tenths_test = (refl, refl)

-- The last two of five characters are selected.
tab_test : (tab 3 5 (record start.this { query = "a\nbcd" })).query ≡ "a\nb  "
unfolding tab
tab_test = refl
