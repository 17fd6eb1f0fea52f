-- ===== src/Web/Sql/Faults.antt =====
-- Comment markers are removed inside quoted texts too.
use Prim.Native.String.{[], ◌∷◌, ◌++◌ as str_append}
use text.Mathlib.TextLemmas.{nil-append, cons-append}
use arcops.Prelude.{String, ◌≡◌, refl, [], ◌∷◌, true, false}
use arcops.Web.Sql.{is_line_end, strip_blocks, strip_lines, split_sql_statements}

-- A text on one line.
abbrev pub IsOneLine : String → Type 0
IsOneLine [] = Unit
IsOneLine (c ∷ s) = (is_line_end c ≡ false) × IsOneLine s

strip_lines-rest : (s : String) → IsOneLine s → strip_lines true s ≡ ""
unfolding strip_lines
strip_lines-rest [] h = refl
strip_lines-rest (c ∷ s) (e, h) = rw e (strip_lines-rest s h)

strip_lines-quoted :
    (s : String) → IsOneLine s → strip_lines false (str_append "SELECT '--" s) ≡ "SELECT '"
unfolding strip_lines
strip_lines-quoted s h =
    rw
      (
        cons-append, cons-append, cons-append, cons-append, cons-append, cons-append, cons-append,
        cons-append, cons-append, cons-append, nil-append,
      )
      (rw (strip_lines-rest s h))

-- A one-line query whose quoted text begins with two dashes, and that holds no block comment, is cut
-- off behind the opening quote: what is left is the one statement SELECT '.
pub split_sql_statements-quoted_dashes :
    (s : String)
    → IsOneLine s
    → strip_blocks false (str_append "SELECT '--" s) ≡ str_append "SELECT '--" s
    → split_sql_statements (str_append "SELECT '--" s) ≡ "SELECT '" ∷ []
unfolding split_sql_statements
split_sql_statements-quoted_dashes s h plain = rw plain (rw (strip_lines-quoted s h))
