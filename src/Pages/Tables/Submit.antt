-- ===== src/Pages/Tables/Submit.antt =====
-- How the form for a new table is submitted.
use arcops.Prelude.{◌≡◌, true, false, none, some, any, arith, ◌==◌}
use arcops.Js.Text.{trim}
use arcops.Js.Json.{undefined}
use arcops.Js.Exec.{Error, Result, ok, err}
use arcops.Js.World.{World}
use arcops.Js.World.Object.{Object}
use arcops.Web.DbmuxSdk.{Client}
use arcops.Web.Tenant.{Decoder}
use arcops.Web.Dbmux.{SqlResult, execute_sql}
use arcops.Pages.Tables.{
  Page, first_columns, create_sql, create_table, fetch_tables, submit, is_blank, message_or,
}

module _ (d : Decoder) (client : Client) where
  fetch_tables-keeps :
      (o : Object Page)
      → ((fetch_tables d client o).0 ≡ ok tt)
        × (((fetch_tables d client o).1.this.new_table_name ≡ o.this.new_table_name)
            × (((fetch_tables d client o).1.this.new_columns ≡ o.this.new_columns)
                × ((fetch_tables d client o).1.this.create_error ≡ o.this.create_error)))
  unfolding fetch_tables
  fetch_tables-keeps o = ground arith

  -- What the database makes of the statement of the form.
  abbrev pub run_sql : Object Page → Result SqlResult × World
  run_sql o =
      execute_sql d client (create_sql o.this.new_table_name o.this.new_columns) undefined o.world

  module _ (o : Object Page) (named : (trim o.this.new_table_name == "") ≡ false)
      (filled : any is_blank o.this.new_columns ≡ false) where
    -- Submitting never throws, and the form is not creating any more.
    pub submit-settles :
        ((submit d client o).0 ≡ ok tt) × ((submit d client o).1.this.creating ≡ false)
    unfolding submit create_table
    submit-settles = ground (arith)

    -- A form that is filled in and whose statement runs is cleared for the next table, and shows no
    -- error.
    submit-ok :
        (v : SqlResult)
        → (run_sql o).0 ≡ ok v
        → ((submit d client o).1.this.new_table_name ≡ "")
          × (((submit d client o).1.this.new_columns ≡ first_columns)
              × ((submit d client o).1.this.create_error ≡ none))
    unfolding submit create_table
    submit-ok v h = ground (
      arith,
      fetch_tables-keeps (record {
        this = record o.this {
          creating = true;
          create_error = none;
          is_open = false;
          new_table_name = "";
          new_columns = first_columns;
        };
        world = (run_sql o).1;
      }),
    )

    -- If running the statement of a form that is filled in throws, the form keeps its name and its
    -- columns and shows the message.
    submit-error :
        (e : Error)
        → (run_sql o).0 ≡ err e
        → ((submit d client o).1.this.new_table_name ≡ o.this.new_table_name)
          × (((submit d client o).1.this.new_columns ≡ o.this.new_columns)
              × ((submit d client o).1.this.create_error ≡ some (message_or e.message)))
    unfolding submit create_table
    submit-error e h = ground arith
