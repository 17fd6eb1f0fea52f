-- ===== src/Pages/Databases/Script.antt =====
-- Running a script, and the files that describe a database.
use arcops.Prelude.{
  ℕ, ◌+◌, Bool-cases, inl, inr, String, ◌≡◌, refl, Bool, true, false, some, List, [], ◌∷◌, length,
  length-append, arith, ◌==◌, if◌then◌else◌,
}
use arcops.Js.Text.{template, trim}
use arcops.Js.Json.{Json, undefined}
use arcops.Js.Exec.{Error, Result, ok, err, handle, continue, pure, ◌>>=◌}
use arcops.Js.World.{World}
use arcops.Pages.Shell.Handshake.{returned}
use arcops.Js.World.Object.{Object}
use arcops.Web.DbmuxSdk.{Client}
use arcops.Web.Tenant.{Decoder}
use arcops.Web.Dbmux.Tables.{names_inherited}
use arcops.Web.Dbmux.{SqlResult, execute_sql, get_backend_config}
use arcops.Pages.Databases.{Database, Panel}
use arcops.Pages.Databases.Handlers.{refresh_size, run_script, execute_sql_script}
use arcops.Pages.Databases.SchemaFile.{config_file, live_file, try_live, download_schema}
use arcops.Pages.Databases.Queries.{size_sql, col_sql}

abbrev pub failed : Error → String
failed e = template ("❌ SQL Execution failed: " ∷ e.message ∷ [])

module _ (d : Decoder) (client : Client) where
  -- If the script of the panel runs and the query for the new size throws, the panel says that running the SQL failed,
  -- and has dropped the script.
  pub execute_sql_script-refresh_error :
      (o : Object Panel) (res : SqlResult) (e : Error)
      → (trim o.this.sql_script_input == "") ≡ false
      → (execute_sql d client o.this.sql_script_input undefined o.world).0 ≡ ok res
      → (execute_sql d client size_sql undefined
          (execute_sql d client o.this.sql_script_input undefined o.world).1).0
        ≡ err e
      → ((execute_sql_script d client o).1.this.sql_message ≡ some (failed e))
        × ((execute_sql_script d client o).1.this.sql_script_input ≡ "")
  unfolding execute_sql_script run_script refresh_size
  execute_sql_script-refresh_error o res e t h g = ground (arith, t, h, g)

-- How many files were made.
abbrev files : Object Panel → ℕ
files o = length o.this.downloads

config_file-files :
    (config : Json) (now : String) (db : Database) (o : Object Panel)
    → ((config_file config now db o).0 ≡ ok tt)
      × (files (config_file config now db o).1 ≡ files o + 1)
unfolding config_file
config_file-files config now db o = grind (arith, length-append)

-- Whether a file was made, and how many there are then.
abbrev Makes : Object Panel → Result Bool × Object Panel → Type 0
Makes o (ok true, q) = files q ≡ files o + 1
Makes o (ok false, q) = files q ≡ files o
Makes o (err e, q) = files q ≡ files o

live_file-Makes :
    (config : Json) (now : String) (rows : List (List Json)) (o : Object Panel)
    → Makes o (live_file config now rows o)
unfolding live_file
live_file-Makes config now [] o = refl
live_file-Makes config now (r ∷ rows) o = elim (Bool-cases (names_inherited (r ∷ rows))) [
  | inl e ↦ rw e
  | inr e ↦ rw e (length-append o.this.downloads _)
]

-- The same of an outcome that is no error.
abbrev Ends : Object Panel → Result Bool × Object Panel → Type 0
Ends o (ok b, q) = Makes o (ok b, q)
Ends o (err e, q) = true ≡ false

caught-Ends :
    (o : Object Panel) (x : Result Bool × Object Panel)
    → Makes o x
    → Ends o (handle (λ _. pure false) x)
caught-Ends o (ok b, q) h = h
caught-Ends o (err e, q) h = h

rows-Makes :
    (config : Json) (now : String) (res : Result SqlResult) (o : Object Panel)
    → Makes o (continue (λ r. live_file config now r.rows) (res, o))
rows-Makes config now (ok r) o = live_file-Makes config now r.rows o
rows-Makes config now (err e) o = refl

then-files :
    (config : Json) (now : String) (db : Database) (o : Object Panel)
    (x : Result Bool × Object Panel)
    → Ends o x
    → ((continue (λ done. if done then pure tt else config_file config now db) x).0 ≡ ok tt)
      × (files (continue (λ done. if done then pure tt else config_file config now db) x).1
          ≡ files o + 1)
then-files config now db o (ok true, q) h = (refl, h)
then-files config now db o (ok false, q) h = ground (arith, h, config_file-files config now db q)
then-files config now db o (err e, q) h = ground (arith, h)

get_backend_config-returned :
    (client : Client) (id : String) (w : World) → returned (get_backend_config client id w).0 ≡ true
unfolding get_backend_config
get_backend_config-returned client id w = grind arith

module _ (d : Decoder) (client : Client) where
  try_live-Ends :
      (config : Json) (now : String) (db : Database) (o : Object Panel)
      → Ends o (try_live d client config now db o)
  unfolding try_live
  try_live-Ends config now db o = elim (Bool-cases (db.id == "postgres")) [
    | inl e ↦ rw e (
        caught-Ends o _
          (rows-Makes config now (execute_sql d client col_sql undefined o.world).0 _))
    | inr e ↦ rw e refl
  ]

  described-files :
      (now : String) (db : Database) (config : Result Json) (o : Object Panel)
      → returned config ≡ true
      → ((continue
            (λ v.
              try_live d client v now db
              >>= (λ done. if done then pure tt else config_file v now db))
            (config, o)).0
          ≡ ok tt)
        × (files
              (continue
                (λ v.
                  try_live d client v now db
                  >>= (λ done. if done then pure tt else config_file v now db))
                (config, o)).1
            ≡ files o + 1)
  described-files now db (ok v) o h =
      then-files v now db o (try_live d client v now db o) (try_live-Ends v now db o)
  described-files now db (err e) o h = ground (arith, h)

  -- Asking for the schema of a database never throws, and downloads exactly one file, whatever the
  -- network and the server do.
  download_schema-files :
      (now : String) (db : Database) (o : Object Panel)
      → ((download_schema d client now db o).0 ≡ ok tt)
        × (length (download_schema d client now db o).1.this.downloads
            ≡ length o.this.downloads + 1)
  unfolding download_schema
  download_schema-files now db o =
      described-files now db (get_backend_config client db.id o.world).0 _
        (get_backend_config-returned client db.id o.world)
