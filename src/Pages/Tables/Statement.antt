-- ===== src/Pages/Tables/Statement.antt =====
-- The statement that `handleCreateSubmit` makes of the form, as `splitSqlStatements` takes it.
use Prim.Native.String.{[], ◌∷◌, ◌++◌ as str_append}
use text.Mathlib.TextLemmas.{
  cons-append, append-nil as str_append_nil, append_assoc as str_append_assoc,
}
use arcops.Prelude.{
  String, ◌≡◌, refl, sym, ap, ◌∙◌, Bool, true, false, List, [], ◌∷◌, ◌++◌, map, All, ◌==◌, ◌&&◌,
  not, if◌then◌else◌,
}
use arcops.Js.Text.{template, trim, to_lower, join, includes}
use arcops.Js.Text.Chars.{is_space}
use arcops.Js.Text.Empty.{cons-ne_empty}
use arcops.Js.Text.Trim.{trim-framed}
use arcops.Js.Text.Every.{
  every, every-template, every-join, every-trim, every-to_lower, every-to_upper,
}
use arcops.Web.Sql.{split_sql_statements}
use arcops.Web.Sql.Tidy.{IsTrimmed}
use arcops.Web.Sql.Plain.{
  is_plain_char, IsPlain, lower_char-plain, upper_char-plain, split_sql_statements-plain,
}
use arcops.Pages.Tables.{NewColumn, type_sql, default_sql, column_sql, create_sql}

-- Neither the name of a column nor its type has a quote, a semicolon, a dash or a slash.
abbrev pub IsPlainColumn : NewColumn → Type 0
IsPlainColumn c = IsPlain c.name × IsPlain c.kind

IsPlain-if : (b : Bool) (s t : String) → IsPlain s → IsPlain t → IsPlain (if b then s else t)
IsPlain-if true s t h k = h
IsPlain-if false s t h k = k

type_sql-IsPlain : (kind : String) → IsPlain kind → IsPlain (type_sql kind)
unfolding type_sql every
type_sql-IsPlain kind h = IsPlain-if (kind == "varchar") _ _ refl (
    IsPlain-if (kind == "int4") _ _ refl (
      IsPlain-if (kind == "int8") _ _ refl (
        IsPlain-if (kind == "float8") _ _ refl (
          IsPlain-if (kind == "timestamptz") _ _ refl (
            IsPlain-if (kind == "timestamp") _ _ refl
              (every-to_upper is_plain_char upper_char-plain kind h))))))

default_sql-IsPlain : (c : NewColumn) → IsPlain (default_sql c)
unfolding default_sql every
default_sql-IsPlain c =
    IsPlain-if (c.kind == "uuid" && c.is_pk) _ _ refl
      (IsPlain-if (includes c.kind "timestamp") _ _ refl refl)

column_sql-IsPlain : (c : NewColumn) → IsPlainColumn c → IsPlain (column_sql c)
unfolding column_sql every
column_sql-IsPlain c (name, kind) =
    every-template is_plain_char
      ("  \""
        ∷ trim c.name
        ∷ "\" "
        ∷ type_sql c.kind
        ∷ (if c.is_pk then " PRIMARY KEY" else "")
        ∷ (if not c.is_nullable && not c.is_pk then " NOT NULL" else "")
        ∷ default_sql c
        ∷ [])
      (
        refl,
        (
          every-trim is_plain_char c.name name,
          (
            refl,
            (
              type_sql-IsPlain c.kind kind,
              (
                IsPlain-if c.is_pk _ _ refl refl,
                (
                  IsPlain-if (not c.is_nullable && not c.is_pk) _ _ refl refl,
                  (default_sql-IsPlain c, tt),
                ),
              ),
            ),
          ),
        ),
      )

columns-IsPlain : (cs : List NewColumn) → All IsPlainColumn cs → All IsPlain (map column_sql cs)
columns-IsPlain [] h = tt
columns-IsPlain (c ∷ cs) (h, hs) = (column_sql-IsPlain c h, columns-IsPlain cs hs)

-- The statement of the form, without the semicolon at its end.
abbrev pub statement_of : String → List NewColumn → String
statement_of name columns = template (
    "CREATE TABLE \""
    ∷ to_lower (trim name)
    ∷ "\" (\n"
    ∷ join ",\n" (map column_sql columns)
    ∷ "\n)"
    ∷ [])

template-last :
    (ss : List String) (s t : String)
    → template (ss ++ str_append s t ∷ []) ≡ str_append (template (ss ++ s ∷ [])) t
template-last [] s t =
    str_append_nil (str_append s t) ∙ ap (λ r. str_append r t) (sym (str_append_nil s))
template-last (r ∷ ss) s t =
    ap (str_append r) (template-last ss s t) ∙ sym (str_append_assoc r (template (ss ++ s ∷ [])) t)

create_sql-statement_of :
    (name : String) (cs : List NewColumn)
    → create_sql name cs ≡ str_append (statement_of name cs) ";"
unfolding create_sql
create_sql-statement_of name cs =
    template-last
      ("CREATE TABLE \"" ∷ to_lower (trim name) ∷ "\" (\n" ∷ join ",\n" (map column_sql cs) ∷ [])
      "\n)" ";"

module _ (name : String) (cs : List NewColumn) (named : IsPlain name)
    (columns : All IsPlainColumn cs) where
  statement_of-IsPlain : IsPlain (statement_of name cs)
  unfolding every
  statement_of-IsPlain =
      every-template is_plain_char
        ("CREATE TABLE \""
          ∷ to_lower (trim name)
          ∷ "\" (\n"
          ∷ join ",\n" (map column_sql cs)
          ∷ "\n)"
          ∷ [])
        (
          refl,
          (
            every-to_lower is_plain_char lower_char-plain (trim name)
                (every-trim is_plain_char name named),
            (
              refl,
              (
                every-join is_plain_char ",\n" (map column_sql cs) refl
                    (columns-IsPlain cs columns),
                (refl, tt),
              ),
            ),
          ),
        )

  -- What stands between its first and its last character.
  abbrev inner : List String
  inner =
      "REATE TABLE \""
      ∷ to_lower (trim name)
      ∷ "\" (\n"
      ∷ join ",\n" (map column_sql cs)
      ∷ "\n"
      ∷ []

  statement_of-inner : statement_of name cs ≡ "C" ∷ str_append (template inner) (")" ∷ "")
  statement_of-inner =
      cons-append "C" "REATE TABLE \""
        (template (to_lower (trim name) ∷ "\" (\n" ∷ join ",\n" (map column_sql cs) ∷ "\n)" ∷ []))
      ∙ ap (λ r. "C" ∷ r)
          (template-last
            ("REATE TABLE \""
              ∷ to_lower (trim name)
              ∷ "\" (\n"
              ∷ join ",\n" (map column_sql cs)
              ∷ [])
            "\n" ")")

  statement_of-IsTrimmed : IsTrimmed (statement_of name cs)
  unfolding is_space
  statement_of-IsTrimmed = rw statement_of-inner (
    cons-ne_empty "C" (str_append (template inner) (")" ∷ "")),
    trim-framed "C" ")" (template inner) refl refl,
  )

  pub split_sql_statements-create_sql :
      split_sql_statements (create_sql name cs) ≡ statement_of name cs ∷ []
  split_sql_statements-create_sql =
      ap split_sql_statements (create_sql-statement_of name cs)
      ∙ split_sql_statements-plain (statement_of name cs) statement_of-IsPlain
          statement_of-IsTrimmed
