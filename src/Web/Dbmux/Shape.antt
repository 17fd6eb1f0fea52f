-- ===== src/Web/Dbmux/Shape.antt =====
-- The shape of what running SQL returns.
use arcops.Prelude.{
  String, ◌≡◌, refl, ap, none, List, [], ◌∷◌, map, length, All, suc, arith, Bool-cases, inl, inr,
}
use arcops.Js.Json.{Json, array, array_of, get, or_else, truthy}
use arcops.Js.Exec.{Result, ok, err, continue, ◌>>=◌}
use arcops.Js.World.{World}
use arcops.Web.DbmuxSdk.{Client, postgres_query}
use arcops.Web.Tenant.{Decoder}
use arcops.Web.Sql.{split_sql_statements}
use arcops.Web.Dbmux.{
  SqlResult, cell, no_rows, shaped, shape, run_statements, active_provider, execute_sql,
}

-- Every row has one cell for each column.
unfoldable pub IsTable : SqlResult → Type 0
IsTable res = All (λ r. length r ≡ length res.columns) res.rows

length-cells : (r : Json) (cols : List Json) → length (map (cell r) cols) ≡ length cols
length-cells r [] = refl
length-cells r (c ∷ cols) = ap suc (length-cells r cols)

rows-IsTable :
    (cols raw : List Json) → All (λ r. length r ≡ length cols) (map (λ r. map (cell r) cols) raw)
rows-IsTable cols [] = tt
rows-IsTable cols (r ∷ raw) = (length-cells r cols, rows-IsTable cols raw)

shaped-IsTable : (v : Json) (cols raw : List Json) → IsTable (shaped v cols raw)
unfolding IsTable
shaped-IsTable v cols raw = rows-IsTable cols raw

abbrev listed : Json → String → List Json
listed v k = array_of (or_else (get v k) (array []))

shape-IsTable : (v : Json) (w : World) (res : SqlResult) → (shape v w).0 ≡ ok res → IsTable res
unfolding shape
shape-IsTable v w res h = ground (arith, h, shaped-IsTable v (listed v "columns") (listed v "rows"))

no_rows-IsTable : IsTable no_rows
unfolding IsTable
no_rows-IsTable = tt

module _ (c : Client) (provider : Json) where
  -- If the rest of the statements returns a table, so do they all.
  abbrev KeepsTables : List String → SqlResult → Type 0
  KeepsTables rest res =
      (x : SqlResult) (w : World)
      → IsTable x
      → (run_statements c provider x rest w).0 ≡ ok res
      → IsTable res

  result-IsTable :
      (rest : List String) (res : SqlResult) (r : Result SqlResult) (w : World)
      → KeepsTables rest res
      → ((x : SqlResult) → r ≡ ok x → IsTable x)
      → (continue (λ result. run_statements c provider result rest) (r, w)).0 ≡ ok res
      → IsTable res
  result-IsTable rest res (ok x) w keep t h = keep x w (t x refl) h
  result-IsTable rest res (err e) w keep t h = ground (arith, h)

  answer-IsTable :
      (rest : List String) (res : SqlResult) (r : Result Json) (w : World)
      → KeepsTables rest res
      → (continue (λ v. shape v >>= (λ result. run_statements c provider result rest)) (r, w)).0
        ≡ ok res
      → IsTable res
  answer-IsTable rest res (ok v) w keep h =
      result-IsTable rest res (shape v w).0 (shape v w).1 keep (shape-IsTable v w) h
  answer-IsTable rest res (err e) w keep h = ground (arith, h)

  run_statements-IsTable :
      (stmts : List String) (res last : SqlResult) (w : World)
      → IsTable last
      → (run_statements c provider last stmts w).0 ≡ ok res
      → IsTable res
  unfolding run_statements
  run_statements-IsTable [] res last w t h = ground (arith, t, h)
  run_statements-IsTable (stmt ∷ rest) res last w t h =
      answer-IsTable rest res (postgres_query c provider stmt none w).0
        (postgres_query c provider stmt none w).1 (λ x v. run_statements-IsTable rest res x v) h

module _ (d : Decoder) (c : Client) where
  -- Whatever the server answers, each row of a result that executeSQL returns has one cell for each of
  -- its columns.
  pub execute_sql-IsTable :
      (sql : String) (provider : Json) (w : World) (res : SqlResult)
      → (execute_sql d c sql provider w).0 ≡ ok res
      → IsTable res
  unfolding execute_sql
  execute_sql-IsTable sql provider w res h =
      elim (Bool-cases (truthy (active_provider d c provider w))) [
        | inl e ↦
            run_statements-IsTable c (active_provider d c provider w) (split_sql_statements sql) res
              no_rows w no_rows-IsTable (ground (arith, e, h))
        | inr e ↦ ground (arith, e, h, no_rows-IsTable)
      ]
