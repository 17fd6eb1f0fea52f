-- ===== src/Pages/Tables/View.antt =====
-- What the page of tables shows, and its controls, web/src/components/tables-page.tsx.
use arcops.Prelude.{
  ℕ, String, Bool, true, false, not, ◌||◌, Option, none, some, List, [], ◌∷◌, map, length, leb,
  ◌==◌, if◌then◌else◌,
}
use arcops.Js.Text.{template, decimal, trim}
use arcops.Web.Dbmux.Tables.{DbTableInfo}
use arcops.Pages.Tables.{NewColumn, Page, filtered_tables}

-- The list
pub record Row : Type 0 where
  pub name : String
  pub columns : String
  pub rows : String
  pub size : String
  pub realtime : String

unfoldable pub row : DbTableInfo → Row
unfolding decimal
row t = record {
  name = t.name;
  columns = decimal t.columns;
  rows = decimal t.rows;
  size = t.size;
  realtime = if t.realtime then "Enabled" else "✕ Disabled";
}

unfoldable pub table_rows : Page → List Row
unfolding row filtered_tables
table_rows p = map row (filtered_tables p)

unfoldable pub tables_found : Page → String
unfolding filtered_tables decimal
tables_found p = template (decimal (length (filtered_tables p)) ∷ " tables found" ∷ [])

-- The dialog of the columns of a table: its name, and lines that are the same for every table.
abbrev fixed_columns : List (String × String)
fixed_columns =
    ("id", "uuid · PRIMARY KEY")
    ∷ ("name / user_id", "text · NOT NULL")
    ∷ ("created_at", "timestamptz · DEFAULT now()")
    ∷ []

abbrev columns_of : Option String → Option (String × List (String × String))
columns_of none = none
columns_of (some name) = if name == "" then none else some (name, fixed_columns)

unfoldable pub columns_dialog : Page → Option (String × List (String × String))
columns_dialog p = columns_of p.selected_table_columns

-- The form for a new table
abbrev pub type_options : List String
type_options =
    "uuid" ∷ "int4" ∷ "int8" ∷ "varchar" ∷ "text" ∷ "bool" ∷ "timestamptz" ∷ "timestamp" ∷ "float8"
    ∷ "jsonb" ∷ []

pub record ColumnRow : Type 0 where
  pub name : String
  pub kind : String
  pub pk : Bool
  pub null : Bool
  pub edits_null : Bool
  pub removes : Bool

abbrev column_row : ℕ → NewColumn → ColumnRow
column_row n c = record {
  name = c.name;
  kind = c.kind;
  pk = c.is_pk;
  null = c.is_nullable;
  edits_null = not c.is_pk;
  removes = not (leb n 1);
}

pub record TableForm : Type 0 where
  pub error : Option String
  pub name : String
  pub columns_label : String
  pub columns : List ColumnRow
  pub saves : Bool
  pub save_label : String

abbrev shown_error : Option String → Option String
shown_error none = none
shown_error (some e) = if e == "" then none else some e

unfoldable pub table_form : Page → Option TableForm
unfolding trim decimal
table_form p =
    if p.is_open
    then some (record {
      error = shown_error p.create_error;
      name = p.new_table_name;
      columns_label = template ("Columns (" ∷ decimal (length p.new_columns) ∷ ")" ∷ []);
      columns = map (column_row (length p.new_columns)) p.new_columns;
      saves = not (p.creating || (trim p.new_table_name == ""));
      save_label = if p.creating then "Saving Table..." else "Save Table";
    })
    else none

-- The controls
abbrev pub search : String → Page → Page
search s p = record p { search_term = s }

abbrev pub view_columns : String → Page → Page
view_columns name p = record p { selected_table_columns = some name }

abbrev pub close_columns : Page → Page
close_columns p = record p { selected_table_columns = none }

abbrev pub new_table : Page → Page
new_table p = record p { is_open = true }

abbrev pub cancel : Page → Page
cancel p = record p { is_open = false }

abbrev pub type_name : String → Page → Page
type_name s p = record p { new_table_name = s }
