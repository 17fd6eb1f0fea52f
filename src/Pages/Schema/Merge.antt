-- ===== src/Pages/Schema/Merge.antt =====
-- What the loop over the rows of the query makes of them.
use arcops.Prelude.{
  String, ◌≡◌, refl, ap, ◌∙◌, Bool, true, false, ◌&&◌, ◌||◌, Option, none, some, List, [], ◌∷◌,
  filter, any, arith, ◌==◌, eq_iff, if◌then◌else◌,
}
use arcops.Js.Json.{Json}
use arcops.Pages.Schema.{
  ColumnMeta, TableMeta, row_table, row_column, row_constraint, new_column, mark, add_to_columns,
  add_row, add_rows,
}

-- The first column of a name, and that of the first table of a name.
abbrev pub column_named : List ColumnMeta → String → Option ColumnMeta
column_named [] c = none
column_named (m ∷ ms) c = if m.name == c then some m else column_named ms c

abbrev pub column_in : List TableMeta → String → String → Option ColumnMeta
column_in [] t c = none
column_in (u ∷ us) t c = if u.id == t then column_named u.columns c else column_in us t c

-- The rows of a column, and the column that they describe: the first gives its name, type and
-- default, and a key is marked where any of them names it.
abbrev pub is_row_of : String → String → List Json → Bool
is_row_of t c r = (row_table r == t) && (row_column r == c)

abbrev pub described : List (List Json) → Option ColumnMeta
described [] = none
described (r ∷ rows) = some (record (new_column r) {
  is_pk = any (λ s. row_constraint s == "PRIMARY KEY") (r ∷ rows);
  is_unique = any (λ s. row_constraint s == "UNIQUE") (r ∷ rows);
})

abbrev merged : Option ColumnMeta → List Json → ColumnMeta
merged none r = new_column r
merged (some m) r = mark (row_constraint r) m

abbrev merged_all : Option ColumnMeta → List (List Json) → Option ColumnMeta
merged_all found [] = found
merged_all found (r ∷ rows) = merged_all (some (merged found r)) rows

column_named-add :
    (ms : List ColumnMeta) (r : List Json) (c : String)
    → column_named (add_to_columns ms r) c
      ≡ (if row_column r == c then some (merged (column_named ms c) r) else column_named ms c)
unfolding add_to_columns new_column mark
column_named-add [] r c = ground arith
column_named-add (m ∷ ms) r c = ground (
  arith,
  column_named-add ms r c,
  eq_iff m.name (row_column r),
  eq_iff m.name c,
  eq_iff (row_column r) c,
)

column_in-add_row :
    (ts : List TableMeta) (r : List Json) (t c : String)
    → column_in (add_row ts r) t c
      ≡ (if is_row_of t c r then some (merged (column_in ts t c) r) else column_in ts t c)
unfolding add_row
column_in-add_row [] r t c = ground (arith, column_named-add [] r c)
column_in-add_row (u ∷ us) r t c = ground (
  arith,
  column_in-add_row us r t c,
  column_named-add u.columns r c,
  eq_iff u.id (row_table r),
  eq_iff u.id t,
  eq_iff (row_table r) t,
)

column_in-add_rows :
    (ts : List TableMeta) (rows : List (List Json)) (t c : String)
    → column_in (add_rows ts rows) t c ≡ merged_all (column_in ts t c) (filter (is_row_of t c) rows)
unfolding add_rows
column_in-add_rows ts [] t c = refl
column_in-add_rows ts (r ∷ rows) t c =
    column_in-add_rows (add_row ts r) rows t c
    ∙ (ap (λ m. merged_all m (filter (is_row_of t c) rows)) (column_in-add_row ts r t c)
        ∙ after (is_row_of t c r))
  where
    after :
        (b : Bool)
        → merged_all
            (if b then some (merged (column_in ts t c) r) else column_in ts t c)
            (filter (is_row_of t c) rows)
          ≡ merged_all
              (column_in ts t c)
              (if b then r ∷ filter (is_row_of t c) rows else filter (is_row_of t c) rows)
    after true = refl
    after false = refl

abbrev marked : ColumnMeta → List (List Json) → ColumnMeta
marked m rows = record m {
  is_pk = m.is_pk || any (λ s. row_constraint s == "PRIMARY KEY") rows;
  is_unique = m.is_unique || any (λ s. row_constraint s == "UNIQUE") rows;
}

merged_all-marked :
    (m : ColumnMeta) (rows : List (List Json)) → merged_all (some m) rows ≡ some (marked m rows)
unfolding mark
merged_all-marked m [] = ground arith
merged_all-marked m (r ∷ rows) = ground (arith, merged_all-marked (mark (row_constraint r) m) rows)

merged_all-described : (rows : List (List Json)) → merged_all none rows ≡ described rows
unfolding new_column
merged_all-described [] = refl
merged_all-described (r ∷ rows) = merged_all-marked (new_column r) rows

-- The column of each table and name is the one that the rows of that table and column describe, in
-- whatever order the rows of different columns stand: its name, type, default and nullability are
-- those of the first of these rows, and it is a primary key, or unique, exactly if any of them says
-- so. A table and name that no row has, has no column.
pub column_in-described :
    (rows : List (List Json)) (t c : String)
    → column_in (add_rows [] rows) t c ≡ described (filter (is_row_of t c) rows)
column_in-described rows t c =
    column_in-add_rows [] rows t c ∙ merged_all-described (filter (is_row_of t c) rows)
