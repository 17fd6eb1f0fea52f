-- ===== src/Pages/Schema/Queries.antt =====
-- The two queries of `fetchLiveSchema`, web/src/components/schema-visualizer.tsx.
use arcops.Prelude.{String, [], ◌∷◌}
use arcops.Js.Text.{template}

abbrev pub col_sql : String
col_sql = template (
    "\n" ∷ "        SELECT\n" ∷ "          t.table_name,\n" ∷ "          c.column_name,\n"
    ∷ "          c.data_type,\n" ∷ "          c.is_nullable,\n" ∷ "          c.column_default,\n"
    ∷ "          tc.constraint_type\n" ∷ "        FROM information_schema.tables t\n"
    ∷ "        JOIN information_schema.columns c ON t.table_name = c.table_name"
    ∷ " AND t.table_schema = c.table_schema\n"
    ∷ "        LEFT JOIN information_schema.key_column_usage kcu ON t.table_name ="
    ∷ " kcu.table_name AND c.column_name = kcu.column_name AND t.table_schema ="
    ∷ " kcu.table_schema\n" ∷ "        LEFT JOIN information_schema.table_constraints tc ON"
    ∷ " kcu.constraint_name = tc.constraint_name AND t.table_schema =" ∷ " tc.table_schema\n"
    ∷ "        WHERE t.table_schema = 'public' AND t.table_type = 'BASE TABLE'\n"
    ∷ "        ORDER BY t.table_name, c.ordinal_position;\n" ∷ "      " ∷ [])

abbrev pub fk_sql : String
fk_sql = template (
    "\n" ∷ "        SELECT\n" ∷ "          kcu.table_name AS from_table,\n"
    ∷ "          kcu.column_name AS from_column,\n" ∷ "          ccu.table_name AS to_table,\n"
    ∷ "          ccu.column_name AS to_column\n"
    ∷ "        FROM information_schema.table_constraints tc\n"
    ∷ "        JOIN information_schema.key_column_usage kcu ON tc.constraint_name"
    ∷ " = kcu.constraint_name AND tc.table_schema = kcu.table_schema\n"
    ∷ "        JOIN information_schema.constraint_column_usage ccu ON"
    ∷ " ccu.constraint_name = tc.constraint_name AND ccu.table_schema =" ∷ " tc.table_schema\n"
    ∷ "        WHERE tc.constraint_type = 'FOREIGN KEY' AND tc.table_schema =" ∷ " 'public';\n"
    ∷ "      " ∷ [])
