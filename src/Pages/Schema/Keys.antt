-- ===== src/Pages/Schema/Keys.antt =====
-- The names in the graph.
use arcops.Prelude.{
  String, ◌≡◌, false, List, [], ◌∷◌, map, filter, All, arith, ◌==◌, Bool-cases, inl, inr,
}
use arcops.Js.Json.{Json}
use arcops.Pages.Schema.Merge.{column_in, described, is_row_of, column_in-described}
use arcops.Pages.Schema.{
  ColumnMeta, TableMeta, row_table, row_column, new_column, mark, add_to_columns, add_row, add_rows,
}

-- No text stands twice.
abbrev pub IsDistinct : List String → Type 0
IsDistinct [] = Unit
IsDistinct (s ∷ ss) = All (λ t. (s == t) ≡ false) ss × IsDistinct ss

abbrev pub column_names : List ColumnMeta → List String
column_names cs = map (λ c. c.name) cs

abbrev pub table_ids : List TableMeta → List String
table_ids ts = map (λ t. t.id) ts

-- A table's node is told by its identifier, its columns by their names.
abbrev pub IsKeyed : List TableMeta → Type 0
IsKeyed ts = IsDistinct (table_ids ts) × All (λ t. IsDistinct (column_names t.columns)) ts

All-columns :
    (name : String) (cs : List ColumnMeta) (r : List Json)
    → (name == row_column r) ≡ false
    → All (λ t. (name == t) ≡ false) (column_names cs)
    → All (λ t. (name == t) ≡ false) (column_names (add_to_columns cs r))
unfolding add_to_columns new_column mark
All-columns name [] r e h = (e, tt)
All-columns name (c ∷ cs) r e h = ground (arith, h, e, All-columns name cs r e h.1)

add_to_columns-IsDistinct :
    (cs : List ColumnMeta) (r : List Json)
    → IsDistinct (column_names cs)
    → IsDistinct (column_names (add_to_columns cs r))
unfolding add_to_columns mark
add_to_columns-IsDistinct [] r h = (tt, tt)
add_to_columns-IsDistinct (c ∷ cs) r h = elim (Bool-cases (c.name == row_column r)) [
  | inl e ↦ rw (e, IsDistinct) h
  | inr e ↦ rw e (All-columns c.name cs r e h.0, add_to_columns-IsDistinct cs r h.1)
]

All-tables :
    (name : String) (ts : List TableMeta) (r : List Json)
    → (name == row_table r) ≡ false
    → All (λ t. (name == t) ≡ false) (table_ids ts)
    → All (λ t. (name == t) ≡ false) (table_ids (add_row ts r))
unfolding add_row
All-tables name [] r e h = (e, tt)
All-tables name (t ∷ ts) r e h = ground (arith, h, e, All-tables name ts r e h.1)

add_row-IsKeyed : (ts : List TableMeta) (r : List Json) → IsKeyed ts → IsKeyed (add_row ts r)
unfolding add_row
add_row-IsKeyed [] r h = ((tt, tt), (add_to_columns-IsDistinct [] r tt, tt))
add_row-IsKeyed (t ∷ ts) r ((p, q), (c, cs)) = elim (Bool-cases (t.id == row_table r)) [
  | inl e ↦ rw e ((p, q), (add_to_columns-IsDistinct t.columns r c, cs))
  | inr e ↦ rw e (
    (All-tables t.id ts r e p, (add_row-IsKeyed ts r (q, cs)).0),
    (c, (add_row-IsKeyed ts r (q, cs)).1),
  )
]

add_rows-IsKeyed_from :
    (ts : List TableMeta) (rows : List (List Json)) → IsKeyed ts → IsKeyed (add_rows ts rows)
unfolding add_rows
add_rows-IsKeyed_from ts [] h = h
add_rows-IsKeyed_from ts (r ∷ rows) h =
    add_rows-IsKeyed_from (add_row ts r) rows (add_row-IsKeyed ts r h)

-- No table stands twice in the graph, and no column twice in its table. The column of each table and name
-- is the one that the rows of that table and column describe, wherever they stand among the others: the
-- first of them gives its name, type, default and nullability, and it is a primary key, or unique,
-- exactly if any of them says so. There is no column that no row has.
pub add_rows-IsGraph :
    (rows : List (List Json)) (t c : String)
    → IsKeyed (add_rows [] rows)
      × (column_in (add_rows [] rows) t c ≡ described (filter (is_row_of t c) rows))
add_rows-IsGraph rows t c = (add_rows-IsKeyed_from [] rows (tt, tt), column_in-described rows t c)
