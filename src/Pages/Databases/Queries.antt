-- ===== src/Pages/Databases/Queries.antt =====
-- The queries of web/src/components/db-bento.tsx.
use arcops.Prelude.{String, [], ◌∷◌}
use arcops.Js.Text.{template}

abbrev pub size_sql : String
size_sql = "SELECT pg_database_size(current_database());"

abbrev pub col_sql : String
col_sql = template (
    "\n" ∷ "          SELECT table_name, column_name, data_type, is_nullable\n"
    ∷ "          FROM information_schema.columns\n" ∷ "          WHERE table_schema = 'public'\n"
    ∷ "          ORDER BY table_name, ordinal_position;\n" ∷ "        " ∷ [])
