-- ===== src/Web/Sql/Tidy.antt =====
-- What each statement looks like.
use arcops.Prelude.{String, ◌≡◌, false, List, [], ◌∷◌, ◌==◌, All, All-append, Bool-cases, inl, inr}
use arcops.Js.Text.{trim, split, drop_start, drop_end}
use arcops.Js.Text.Trim.{trim_idem}
use arcops.Web.Sql.{
  clean_sql, is_semicolon, tidy, kept, extend, ends_statement, gather, split_sql_statements,
}

-- Not empty, and no white space at either end.
abbrev pub IsTrimmed : String → Type 0
IsTrimmed s = ((s == "") ≡ false) × (trim s ≡ s)

trim-tidy : (s : String) → trim (tidy s) ≡ tidy s
unfolding tidy
trim-tidy s = trim_idem (drop_end is_semicolon (drop_start is_semicolon (trim s)))

IsTrimmed-kept : (s : String) → All IsTrimmed (kept (tidy s))
IsTrimmed-kept s = elim (Bool-cases (tidy s == "")) [
  | inl e ↦ rw (e, kept) tt
  | inr e ↦ rw (e, kept) ((e, trim-tidy s), tt)
]

IsTrimmed-gather : (current : String) (parts : List String) → All IsTrimmed (gather current parts)
unfolding gather
IsTrimmed-gather current [] = elim (Bool-cases (trim current == "")) [
  | inl e ↦ rw e tt
  | inr e ↦ rw e (IsTrimmed-kept current)
]
IsTrimmed-gather current (part ∷ parts) =
    let whole = extend current part in
    elim (Bool-cases (ends_statement whole)) [
      | inl e ↦ rw e (
          All-append IsTrimmed (kept (tidy whole)) (gather "" parts) (IsTrimmed-kept whole)
            (IsTrimmed-gather "" parts))
      | inr e ↦ rw e (IsTrimmed-gather whole parts)
    ]

-- No statement is empty or has white space at an end.
split_sql_statements-IsTrimmed : (sql : String) → All IsTrimmed (split_sql_statements sql)
unfolding split_sql_statements
split_sql_statements-IsTrimmed sql = IsTrimmed-gather "" (split b';' (clean_sql sql))
