-- ===== src/Pages/Schema.antt =====
-- `SchemaVisualizerPage`, web/src/components/schema-visualizer.tsx: the tables of a tenant, from the
-- rows of a query.
pub mod Graph
pub mod Queries
pub mod Merge
pub mod Keys
pub mod Layout
pub mod Loading
pub mod Tests
use arcops.Prelude.{
  ℕ, suc, ◌+◌, ◌*◌, ◌/◌, ◌%◌, String, Bool, true, false, not, ◌||◌, Option, none, some, List, [],
  ◌∷◌, ◌++◌, map, filter, ◌==◌, if◌then◌else◌,
}
use arcops.Js.Text.{template, decimal, join, trim, starts_with, includes, to_lower, to_upper}
use arcops.Js.Json.{Json, undefined, str, or_else, to_string}
use arcops.Js.Exec.{Result, Error, ok, err, pure, throw, catch, finally, type_error, ◌>>=◌, ◌>>◌}
use arcops.Js.World.{World, Io, set_timeout}
use arcops.Js.World.Object.{Object, Method, io, read, update}
use arcops.Web.DbmuxSdk.{Client}
use arcops.Web.Tenant.{Decoder}
use arcops.Web.Dbmux.{SqlResult, no_rows, execute_sql}
use arcops.Web.Dbmux.Tables.{at, names_inherited}
use arcops.Pages.Schema.Queries.{col_sql, fk_sql}

pub record ColumnMeta : Type 0 where
  pub name : String
  pub kind : String
  pub is_nullable : Bool
  pub is_identity : Bool
  pub is_pk : Bool
  pub is_unique : Bool

pub record TableMeta : Type 0 where
  pub id : String
  pub name : String
  pub columns : List ColumnMeta

pub record FkRelation : Type 0 where
  pub from_table : String
  pub from_column : String
  pub to_table : String
  pub to_column : String

short_type : String → String
unfolding starts_with
short_type t =
    if t == "character varying" || starts_with t "varchar"
    then "varchar"
    else if t == "double precision"
    then "float8"
    else if t == "timestamp without time zone"
    then "timestamp"
    else if t == "timestamp with time zone"
    then "timestamptz"
    else if t == "integer"
    then "int4"
    else if t == "bigint"
    then "int8"
    else if t == "smallint"
    then "int2"
    else if t == "boolean"
    then "bool"
    else if t == "user-defined"
    then "enum"
    else t

-- `formatPgDataType`
unfoldable pub format_pg_data_type : String → String
unfolding short_type to_lower trim
format_pg_data_type raw = short_type (trim (to_lower raw))

-- What a row of the query says.
abbrev pub row_table : List Json → String
row_table r = to_string (at r 0)

abbrev pub row_column : List Json → String
row_column r = to_string (at r 1)

abbrev pub row_constraint : List Json → String
row_constraint r = to_string (or_else (at r 5) (str ""))

abbrev col_default : List Json → String
col_default r = to_string (or_else (at r 4) (str ""))

unfoldable pub is_identity_default : String → Bool
unfolding includes
is_identity_default s = includes s "nextval" || includes s "identity"

unfoldable pub new_column : List Json → ColumnMeta
unfolding format_pg_data_type is_identity_default
new_column r = record {
  name = row_column r;
  kind = format_pg_data_type (to_string (at r 2));
  is_nullable = to_string (at r 3) == "YES";
  is_identity = is_identity_default (col_default r);
  is_pk = row_constraint r == "PRIMARY KEY";
  is_unique = row_constraint r == "UNIQUE";
}

-- A further row of a column only adds marks.
unfoldable pub mark : String → ColumnMeta → ColumnMeta
mark constraint c = record c {
  is_pk = (constraint == "PRIMARY KEY") || c.is_pk;
  is_unique = (constraint == "UNIQUE") || c.is_unique;
}

unfoldable pub add_to_columns : List ColumnMeta → List Json → List ColumnMeta
unfolding new_column mark
add_to_columns [] r = new_column r ∷ []
add_to_columns (c ∷ cs) r =
    let rest = add_to_columns cs r in
    if c.name == row_column r then mark (row_constraint r) c ∷ cs else c ∷ rest

-- The body of the loop over the rows.
unfoldable pub add_row : List TableMeta → List Json → List TableMeta
unfolding add_to_columns
add_row [] r = record { id = row_table r; name = row_table r; columns = add_to_columns [] r } ∷ []
add_row (t ∷ ts) r =
    let rest = add_row ts r in
    if t.id == row_table r then record t { columns = add_to_columns t.columns r } ∷ ts else t ∷ rest

-- The loop, and `Object.values`, but for names that are array indices, which that puts first.
unfoldable pub add_rows : List TableMeta → List (List Json) → List TableMeta
unfolding add_row
add_rows ts [] = ts
add_rows ts (r ∷ rows) = add_rows (add_row ts r) rows

abbrev pub fk_of : List Json → FkRelation
fk_of r = record {
  from_table = to_string (at r 0);
  from_column = to_string (at r 1);
  to_table = to_string (at r 2);
  to_column = to_string (at r 3);
}
