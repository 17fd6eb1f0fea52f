-- ===== src/Web/Dbmux/Queries.antt =====
-- The SQL texts of web/src/lib/dbmux.ts.
use arcops.Prelude.{String, [], ◌∷◌}
use arcops.Js.Text.{template}

-- `getTables`
abbrev pub tables_sql : String
tables_sql = template (
    "\n" ∷ "      SELECT \n" ∷ "        t.table_name AS name,\n"
    ∷ "        COUNT(c.column_name)::int AS columns,\n"
    ∷ "        COALESCE(s.n_live_tup, 0)::int AS rows,\n"
    ∷ "        pg_size_pretty(COALESCE(pg_total_relation_size(c2.oid), 0)) AS size\n"
    ∷ "      FROM information_schema.tables t\n"
    ∷ "      LEFT JOIN information_schema.columns c ON t.table_name = c.table_name AND"
    ∷ " t.table_schema = c.table_schema\n"
    ∷ "      LEFT JOIN pg_stat_user_tables s ON s.relname = t.table_name\n"
    ∷ "      LEFT JOIN pg_class c2 ON c2.relname = t.table_name\n"
    ∷ "      WHERE t.table_schema = 'public'\n"
    ∷ "      GROUP BY t.table_name, s.n_live_tup, c2.oid;\n" ∷ "    " ∷ [])

-- `getSchemaTables`
abbrev pub schema_sql : String
schema_sql = template (
    "\n" ∷ "      SELECT \n" ∷ "        t.table_name,\n" ∷ "        c.column_name,\n"
    ∷ "        c.data_type,\n"
    ∷ "        (SELECT COUNT(*) > 0 FROM information_schema.table_constraints tc \n"
    ∷ "         JOIN information_schema.constraint_column_usage ccu ON"
    ∷ " tc.constraint_name = ccu.constraint_name\n"
    ∷ "         WHERE tc.constraint_type = 'PRIMARY KEY' AND ccu.table_name ="
    ∷ " t.table_name AND ccu.column_name = c.column_name) AS is_pk\n"
    ∷ "      FROM information_schema.tables t\n"
    ∷ "      JOIN information_schema.columns c ON t.table_name = c.table_name AND"
    ∷ " t.table_schema = c.table_schema\n" ∷ "      WHERE t.table_schema = 'public'\n"
    ∷ "      ORDER BY t.table_name, c.ordinal_position;\n" ∷ "    " ∷ [])

-- `getTelemetryMetrics`
abbrev pub metrics_sql : String
metrics_sql = template (
    "SELECT DISTINCT ON (metric_name, time_label) metric_name, time_label,"
    ∷ " metric_value FROM telemetry_metrics ORDER BY metric_name, time_label, id ASC;" ∷ [])
