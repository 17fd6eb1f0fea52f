-- ===== src/Web/Dbmux/Grouping.antt =====
-- Grouping the rows of the schema query by table.
use arcops.Prelude.{
  String, ◌≡◌, sym, ap, ◌∙◌, Bool, true, false, List, [], ◌∷◌, ◌++◌, append_assoc, append-nil,
  arith, ◌==◌, eq_iff, All, Bool-cases, inl, inr, if◌then◌else◌,
}
use arcops.Js.Json.{Json, to_string}
use arcops.Web.Dbmux.Tables.{Column, Table, at, column_of, add_column, group_rows}

-- The columns that a list of tables has under a name.
abbrev pub columns_in : List Table → String → List Column
columns_in [] name = []
columns_in (t ∷ ts) name = if t.name == name then t.columns else columns_in ts name

-- The columns of the rows that name a table, in their order.
abbrev pub columns_of : List (List Json) → String → List Column
columns_of [] name = []
columns_of (r ∷ rows) name =
    let rest = columns_of rows name in
    if to_string (at r 0) == name then column_of r ∷ rest else rest

columns_in-add_column :
    (ts : List Table) (k name : String) (column : Column)
    → columns_in (add_column ts k column) name
      ≡ columns_in ts name ++ (if k == name then column ∷ [] else [])
unfolding add_column
columns_in-add_column [] k name column = ground arith
columns_in-add_column (t ∷ ts) k name column = ground (
  arith,
  columns_in-add_column ts k name column,
  append-nil (columns_in ts name),
  eq_iff t.name k,
  eq_iff t.name name,
  eq_iff k name,
  append-nil t.columns,
)

columns_in-group_rows_from :
    (ts : List Table) (rows : List (List Json)) (name : String)
    → columns_in (group_rows ts rows) name ≡ columns_in ts name ++ columns_of rows name
unfolding group_rows
columns_in-group_rows_from ts [] name = sym (append-nil (columns_in ts name))
columns_in-group_rows_from ts (r ∷ rows) name =
    columns_in-group_rows_from (add_column ts (to_string (at r 0)) (column_of r)) rows name
    ∙ (ap (λ l. l ++ columns_of rows name)
          (columns_in-add_column ts (to_string (at r 0)) name (column_of r))
        ∙ regroup (to_string (at r 0) == name))
  where
    regroup :
        (b : Bool)
        → (columns_in ts name ++ (if b then column_of r ∷ [] else [])) ++ columns_of rows name
          ≡ columns_in ts name
            ++ (if b then column_of r ∷ columns_of rows name else columns_of rows name)
    regroup true = append_assoc (columns_in ts name) (column_of r ∷ []) (columns_of rows name)
    regroup false = append_assoc (columns_in ts name) [] (columns_of rows name)

-- Under each name the grouped tables hold exactly the columns of the rows that name it, in the order
-- of the rows.
pub columns_in-group_rows :
    (rows : List (List Json)) (name : String)
    → columns_in (group_rows [] rows) name ≡ columns_of rows name
columns_in-group_rows rows name = columns_in-group_rows_from [] rows name

-- The tables have different names.
abbrev pub IsDistinct : List Table → Type 0
IsDistinct [] = Unit
IsDistinct (t ∷ ts) = All (λ u. (t.name == u.name) ≡ false) ts × IsDistinct ts

All-add_column :
    (name : String) (ts : List Table) (k : String) (column : Column)
    → (name == k) ≡ false
    → All (λ u. (name == u.name) ≡ false) ts
    → All (λ u. (name == u.name) ≡ false) (add_column ts k column)
unfolding add_column
All-add_column name [] k column e h = (e, tt)
All-add_column name (t ∷ ts) k column e (p, h) = ground (arith, All-add_column name ts k column e h)

IsDistinct-add_column :
    (ts : List Table) (k : String) (column : Column)
    → IsDistinct ts
    → IsDistinct (add_column ts k column)
unfolding add_column
IsDistinct-add_column [] k column h = (tt, tt)
IsDistinct-add_column (t ∷ ts) k column (p, h) = elim (Bool-cases (t.name == k)) [
  | inl e ↦ rw (e, IsDistinct) (p, h)
  | inr e ↦
      rw (e, IsDistinct)
        (All-add_column t.name ts k column e p, IsDistinct-add_column ts k column h)
]

IsDistinct-group_rows_from :
    (ts : List Table) (rows : List (List Json)) → IsDistinct ts → IsDistinct (group_rows ts rows)
unfolding group_rows
IsDistinct-group_rows_from ts [] h = h
IsDistinct-group_rows_from ts (r ∷ rows) h =
    IsDistinct-group_rows_from (add_column ts (to_string (at r 0)) (column_of r)) rows
      (IsDistinct-add_column ts (to_string (at r 0)) (column_of r) h)

-- No table name stands twice in the grouped tables.
group_rows-IsDistinct : (rows : List (List Json)) → IsDistinct (group_rows [] rows)
group_rows-IsDistinct rows = IsDistinct-group_rows_from [] rows tt
