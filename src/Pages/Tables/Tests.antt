-- ===== src/Pages/Tables/Tests.antt =====
-- The form for a new table on concrete inputs.
use arcops.Prelude.{List, ◌≡◌, refl, true, false, none, some, [], ◌∷◌, any, ◌==◌}
use arcops.Js.Text.{trim}
use arcops.Js.Json.{str, object, get}
use arcops.Js.Exec.{ok, err}
use arcops.Js.World.{network_error}
use arcops.Js.World.Object.{Object}
use arcops.Js.World.Sample.{world}
use arcops.Js.World.WebStorage.{get_item}
use arcops.Sdk.Mask.{pos}
use arcops.Web.DbmuxSdk.{Client}
use arcops.Web.Tenant.{Decoder}
use arcops.Web.Dbmux.{no_rows, execute_sql}
use arcops.Prelude.Steps.{Reaches}
use arcops.Pages.Tables.{NewColumn, Page, first_columns, create_sql, submit, is_blank}
use arcops.Web.Sql.{split_sql_statements}
use arcops.Pages.Tables.{add_column, change_column, remove_column, set_pk}
use arcops.Pages.Tables.Form.{IsForm, IsNew, Step, Reaches-IsForm}
use arcops.Pages.Tables.View.{columns_dialog, table_form, tables_found, view_columns, cancel}
use arcops.Pages.Tables.Submit.{submit-settles, run_sql}

abbrev decoder : Decoder
decoder = record {
  parse = λ s. some (object (("id", str s) ∷ []));
  atob = λ s. none;
  decode_uri_component = λ s. none;
}

abbrev client : Client
client = record {
  base_url = "http://localhost:8000/rpc";
  service_key = none;
  anon_key = none;
  auth_token = none;
  transport = none;
  capabilities_mask = pos 0;
}

abbrev page : Page
page = record {
  search_term = "";
  tables = [];
  loading = false;
  selected_table_columns = none;
  is_open = true;
  new_table_name = "users";
  new_columns = first_columns;
  creating = false;
  create_error = none;
}

-- Nobody is signed in, and the server does not answer a user.
abbrev signed_out : Object Page
signed_out = record { this = page; world = world [] [] }

abbrev offline : Object Page
offline = record { this = page; world = world (("arcauth_user", "7") ∷ []) [] }

create_sql_test :
    create_sql "Users " first_columns
    ≡ "CREATE TABLE \"users\" (\n  \"id\" UUID PRIMARY KEY DEFAULT gen_random_uuid(),\n  \"created_at\" TIMESTAMP WITH TIME ZONE NOT NULL DEFAULT NOW()\n);"
unfolding create_sql
create_sql_test = refl

named : (trim page.new_table_name == "") ≡ false
unfolding trim
named = refl

filled : any is_blank page.new_columns ≡ false
unfolding trim
filled = refl

submit-settles_example :
    ((submit decoder client offline).0 ≡ ok tt)
    × ((submit decoder client offline).1.this.creating ≡ false)
submit-settles_example = submit-settles decoder client offline named filled

nothing_sent : (run_sql decoder client signed_out).0 ≡ ok no_rows
unfolding execute_sql get_item
nothing_sent = refl

sql_fails : (run_sql decoder client offline).0 ≡ err network_error
unfolding execute_sql get_item create_sql get split_sql_statements
sql_fails = refl

-- A column is added and made a key, the first one is removed, and the form is submitted.
abbrev with : List NewColumn → Object Page
with columns = record offline { this = record page { new_columns = columns } }

abbrev added : List NewColumn
added = add_column "1732600000000" first_columns

abbrev keyed : List NewColumn
keyed = change_column "1732600000000" (set_pk true) added

is_new : IsNew "1732600000000" first_columns
is_new = (refl, (refl, tt))

form_steps :
    Reaches (Step decoder client) offline (submit decoder client (with (remove_column "1" keyed))).1
form_steps =
    Reaches.next
      (Reaches.next
        (Reaches.next (Reaches.next Reaches.here (Step.adds {o = offline} "1732600000000" is_new))
          (Step.changes {o = with added} "1732600000000" (set_pk true)))
        (Step.removes {o = with keyed} "1"))
      Step.submits

Reaches-IsForm_example :
    IsForm (submit decoder client (with (remove_column "1" keyed))).1.this.new_columns
Reaches-IsForm_example =
    Reaches-IsForm decoder client {o = offline}
      {q = (submit decoder client (with (remove_column "1" keyed))).1}
      (((refl, tt), (tt, tt)), refl) form_steps

-- The dialog shows the same columns for any two tables, and a form that is closed is not shown.
dialog_test :
    (columns_dialog (view_columns "users" page)
      ≡ some (
        "users",
        ("id", "uuid · PRIMARY KEY")
            ∷ ("name / user_id", "text · NOT NULL")
            ∷ ("created_at", "timestamptz · DEFAULT now()")
            ∷ [],
      ))
    × ((table_form (cancel page) ≡ none) × (tables_found page ≡ "0 tables found"))
unfolding columns_dialog table_form tables_found
dialog_test = (refl, (refl, refl))
