-- ===== src/Pages/SqlDrawer/Results.antt =====
-- What the drawer shows of a query.
use arcops.Prelude.{ℕ, String, ◌≡◌, refl, false, some, [], ◌∷◌, arith}
use arcops.Js.Text.{template, decimal}
use arcops.Js.Json.{undefined}
use arcops.Js.Exec.{Result, ok, err}
use arcops.Js.World.Object.{Object}
use arcops.Web.DbmuxSdk.{Client}
use arcops.Web.Tenant.{Decoder}
use arcops.Web.Dbmux.{SqlResult, execute_sql}
use arcops.Pages.SqlDrawer.{Drawer, run_query}
use arcops.Pages.SqlDrawer.View.{Results, results_area, results_line, tenths}

abbrev pub time_of : Result SqlResult → ℕ → ℕ
time_of (ok _) elapsed = elapsed
time_of (err _) elapsed = 0

-- "0 rows" and a time
abbrev pub zero_rows : ℕ → String
zero_rows t = template ("0" ∷ " row" ∷ "s" ∷ " · " ∷ tenths t ∷ "ms" ∷ [])

run_query-this :
    (d : Decoder) (client : Client) (elapsed : ℕ) (o : Object Drawer)
    → ((run_query d client elapsed o).0 ≡ ok tt)
      × ((run_query d client elapsed o).1.this ≡ record o.this {
        results = some [];
        columns = [];
        exec_time = some (time_of (execute_sql d client o.this.query undefined o.world).0 elapsed);
        executing = false;
      })
unfolding run_query
run_query-this d client elapsed o = ground arith

results_line-none :
    (p : Drawer) (t : ℕ)
    → p.results ≡ some []
    → p.exec_time ≡ some t
    → results_line p ≡ some (zero_rows t)
unfolding results_line decimal
results_line-none p t h k = rw (h, k) refl

-- Running a query does not throw and ends with the button "Run" on again, and whatever rows the server
-- sends the drawer says that zero rows were returned, in the line behind the heading too. It says the
-- same of a query that fails: what tells it from one that ran is a time of 0.
pub run_query-shown :
    (d : Decoder) (client : Client) (elapsed : ℕ) (o : Object Drawer)
    → ((run_query d client elapsed o).0 ≡ ok tt)
      × (((run_query d client elapsed o).1.this.executing ≡ false)
          × ((results_area (run_query d client elapsed o).1.this ≡ Results.no_rows)
              × (results_line (run_query d client elapsed o).1.this
                  ≡ some (
                      zero_rows (
                        time_of (execute_sql d client o.this.query undefined o.world).0 elapsed)))))
unfolding results_area
run_query-shown d client elapsed o =
    let (done, this) = run_query-this d client elapsed o in
    let t = time_of (execute_sql d client o.this.query undefined o.world).0 elapsed in
    (done, (rw this refl, (rw this refl, rw this (results_line-none _ t refl refl))))
