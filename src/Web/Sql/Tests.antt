-- ===== src/Web/Sql/Tests.antt =====
-- The splitting on concrete inputs.
use arcops.Prelude.{◌≡◌, refl, [], ◌∷◌, arith}
use arcops.Js.Text.{template}
use arcops.Web.Sql.{clean_sql, strip_blocks, split_sql_statements}
use arcops.Web.Sql.Text.{essence}
use arcops.Web.Sql.Content.{split_sql_statements-content}
use arcops.Web.Sql.Quotes.{BalancedButLast, split_sql_statements-BalancedButLast}
use arcops.Web.Sql.Faults.{split_sql_statements-quoted_dashes}

split_sql_statements-content_example :
    essence (template (split_sql_statements "a; -- b\n c;")) ≡ essence (clean_sql "a; -- b\n c;")
split_sql_statements-content_example = split_sql_statements-content "a; -- b\n c;"

split_sql_statements-BalancedButLast_example : BalancedButLast (split_sql_statements "a ';' b; c")
split_sql_statements-BalancedButLast_example = split_sql_statements-BalancedButLast "a ';' b; c"

split_sql_statements-quoted_dashes_example :
    split_sql_statements "SELECT '-- x' AS a" ≡ "SELECT '" ∷ []
unfolding strip_blocks
split_sql_statements-quoted_dashes_example =
    split_sql_statements-quoted_dashes " x' AS a" (ground arith) refl

split_test : split_sql_statements "a 'x;y' -- z;\n; /* b; */ c;" ≡ "a 'x;y'" ∷ "c" ∷ []
unfolding split_sql_statements
split_test = refl
