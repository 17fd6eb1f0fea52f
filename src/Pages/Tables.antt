-- ===== src/Pages/Tables.antt =====
-- `TablesPage`, web/src/components/tables-page.tsx: the list of tables, and the form for a new one.
pub mod Columns
pub mod View
pub mod Form
pub mod Submit
pub mod Statement
pub mod Create
pub mod Tests
use arcops.Prelude.{
  ℕ, String, Bool, true, false, not, ◌&&◌, ◌||◌, Option, none, some, List, [], ◌∷◌, ◌++◌, map,
  filter, any, length, leb, ◌==◌, if◌then◌else◌,
}
use arcops.Js.Text.{template, trim, to_lower, to_upper, includes, join}
use arcops.Js.Json.{undefined}
use arcops.Js.Exec.{pure, catch, finally, ◌>>=◌, ◌>>◌}
use arcops.Js.World.Object.{Object, Method, io, read, update}
use arcops.Web.DbmuxSdk.{Client}
use arcops.Web.Tenant.{Decoder}
use arcops.Web.Dbmux.{execute_sql}
use arcops.Web.Dbmux.Tables.{DbTableInfo, get_tables}

pub record NewColumn : Type 0 where
  pub id : String
  pub name : String
  pub kind : String
  pub is_pk : Bool
  pub is_nullable : Bool

abbrev pub first_columns : List NewColumn
first_columns =
    (record { id = "1"; name = "id"; kind = "uuid"; is_pk = true; is_nullable = false })
    ∷ (record {
      id = "2";
      name = "created_at";
      kind = "timestamptz";
      is_pk = false;
      is_nullable = false;
    })
    ∷ []

pub record Page : Type 0 where
  pub search_term : String
  pub tables : List DbTableInfo
  pub loading : Bool
  pub selected_table_columns : Option String
  pub is_open : Bool
  pub new_table_name : String
  pub new_columns : List NewColumn
  pub creating : Bool
  pub create_error : Option String

unfoldable pub filtered_tables : Page → List DbTableInfo
unfolding to_lower includes
filtered_tables p = filter (λ t. includes (to_lower t.name) (to_lower p.search_term)) p.tables

-- `handleAddColumn`, at the time that `Date.now()` shows
unfoldable pub add_column : String → List NewColumn → List NewColumn
add_column now columns =
    columns
    ++ (record { id = now; name = ""; kind = "varchar"; is_pk = false; is_nullable = true }) ∷ []

-- `handleRemoveColumn`
unfoldable pub remove_column : String → List NewColumn → List NewColumn
remove_column id columns =
    let rest = filter (λ c. not (c.id == id)) columns in
    if leb (length columns) 1 then columns else rest

-- What `handleColumnChange` may set.
pub data Change : Type 0 where
  set_name : String → Change
  set_kind : String → Change
  set_pk : Bool → Change
  set_nullable : Bool → Change

abbrev pub changed : Change → NewColumn → NewColumn
changed (set_name s) c = record c { name = s }
changed (set_kind s) c = record c { kind = s }
changed (set_pk b) c = record c { is_pk = b }
changed (set_nullable b) c = record c { is_nullable = b }

-- `handleColumnChange`
unfoldable pub change_column : String → Change → List NewColumn → List NewColumn
change_column id change columns = map (λ c. if c.id == id then changed change c else c) columns

unfoldable pub type_sql : String → String
unfolding to_upper
type_sql kind =
    if kind == "varchar"
    then "VARCHAR(255)"
    else if kind == "int4"
    then "INTEGER"
    else if kind == "int8"
    then "BIGINT"
    else if kind == "float8"
    then "DOUBLE PRECISION"
    else if kind == "timestamptz"
    then "TIMESTAMP WITH TIME ZONE"
    else if kind == "timestamp"
    then "TIMESTAMP"
    else to_upper kind

unfoldable pub default_sql : NewColumn → String
unfolding includes
default_sql c =
    if c.kind == "uuid" && c.is_pk
    then " DEFAULT gen_random_uuid()"
    else if includes c.kind "timestamp"
    then " DEFAULT NOW()"
    else ""

unfoldable pub column_sql : NewColumn → String
unfolding type_sql default_sql trim
column_sql c = template (
    "  \""
    ∷ trim c.name
    ∷ "\" "
    ∷ type_sql c.kind
    ∷ (if c.is_pk then " PRIMARY KEY" else "")
    ∷ (if not c.is_nullable && not c.is_pk then " NOT NULL" else "")
    ∷ default_sql c
    ∷ [])

unfoldable pub create_sql : String → List NewColumn → String
unfolding column_sql trim to_lower join
create_sql name columns = template (
    "CREATE TABLE \""
    ∷ to_lower (trim name)
    ∷ "\" (\n"
    ∷ join ",\n" (map column_sql columns)
    ∷ "\n);"
    ∷ [])

abbrev pub is_blank : NewColumn → Bool
is_blank c = trim c.name == ""

abbrev pub message_or : String → String
message_or m = if m == "" then "Failed to create table. Please check table/column names." else m

module _ (d : Decoder) (client : Client) where
  -- `fetchTables`
  unfoldable pub fetch_tables : Method Page Unit
  fetch_tables = do
    update λ p. record p { loading = true }
    finally
        (catch (do tables ← io (get_tables d client); update λ p. record p { tables = tables })
          (λ _. pure tt))
        (λ o. record o { this = record o.this { loading = false } })

  unfoldable pub create_table : String → Method Page Unit
  create_table sql = do
    io (execute_sql d client sql undefined)
    update λ p. record p { is_open = false; new_table_name = ""; new_columns = first_columns }
    fetch_tables

  -- `handleCreateSubmit`
  unfoldable pub submit : Method Page Unit
  unfolding trim
  submit = do
    page ← read (λ p. p)
    if trim page.new_table_name == ""
        then pure tt
        else if any is_blank page.new_columns
        then update (λ p. record p { create_error = some "All columns must have a valid name." })
        else (do
          update λ p. record p { creating = true; create_error = none }
          finally
              (catch (create_table (create_sql page.new_table_name page.new_columns))
                (λ e. update λ p. record p { create_error = some (message_or e.message) }))
              (λ o. record o { this = record o.this { creating = false } }))
