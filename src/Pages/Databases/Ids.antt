-- ===== src/Pages/Databases/Ids.antt =====
-- The databases of the panel stay the same five.
use arcops.Prelude.{
  ℕ, String, Bool, true, false, if◌then◌else◌, ◌≡◌, refl, ap, ◌∙◌, Option, none, some, List, [],
  ◌∷◌, map, find, arith, ◌==◌, Bool-cases, inl, inr,
}
use arcops.Prelude.Steps.{Reaches, Reaches-keeps}
use arcops.Js.Json.{Json}
use arcops.Js.Exec.{Result, ok, err, pure, continue, ◌>>=◌}
use arcops.Js.World.{Storage}
use arcops.Js.World.Object.{Object, Method}
use arcops.Web.DbmuxSdk.{Client}
use arcops.Web.Tenant.{Decoder}
use arcops.Web.Dbmux.{get_backend_config}
use arcops.Pages.Databases.{
  Database, Panel, unconfigured_databases, tenant_databases, check_user, load_tenant_databases,
  card_click, with_dsn, with_mode, with_mode_of_dsn,
}
use arcops.Pages.Databases.Handlers.{
  connected, keep_dsn, register, register_active, register_byod, switch_all, toggle_found,
  toggle_mode, with_size, refresh_size, run_script, execute_sql_script,
}
use arcops.Pages.Databases.View.{
  close_settings, open_script, close_script, close_auth, go_to_sign_in,
}
use arcops.Pages.Databases.SchemaFile.{config_file, live_file, try_live, download_schema}

abbrev pub ids : List Database → List String
ids dbs = map (λ db. db.id) dbs

abbrev pub IsTenant : Panel → Type 0
IsTenant p = ids p.databases ≡ ids unconfigured_databases

ids-tenant_databases :
    (s : Storage) (size : ℕ) → ids (tenant_databases s size) ≡ ids unconfigured_databases
unfolding tenant_databases with_dsn with_mode with_mode_of_dsn
ids-tenant_databases s size = refl

ids-connected :
    (id : String) (token : Json) (dbs : List Database)
    → ids (map (connected id token) dbs) ≡ ids dbs
unfolding connected
ids-connected id token [] = refl
ids-connected id token (db ∷ dbs) = ground (arith, ids-connected id token dbs)

ids-switch_all :
    (id : String) (dbs : List Database) (s : Storage) → ids (switch_all id dbs s).0 ≡ ids dbs
unfolding switch_all
ids-switch_all id [] s = refl
ids-switch_all id (db ∷ dbs) s = elim (Bool-cases (db.id == id)) [
  | inl e ↦ rw e (ap (λ l. db.id ∷ l) (ids-switch_all id dbs _))
  | inr e ↦ rw e (ap (λ l. db.id ∷ l) (ids-switch_all id dbs s))
]

ids-with_size : (size : Option ℕ) (dbs : List Database) → ids (with_size size dbs) ≡ ids dbs
unfolding with_size
ids-with_size none dbs = refl
ids-with_size (some size) [] = refl
ids-with_size (some size) (db ∷ dbs) = ground (arith, ids-with_size (some size) dbs)

toggle_found-ids :
    (id : String) (found : Option Database) (o : Object Panel)
    → ids (toggle_found id found o).1.this.databases ≡ ids o.this.databases
unfolding toggle_found
toggle_found-ids id none o = refl
toggle_found-ids id (some db) o = ground (arith, ids-switch_all id o.this.databases o.world.local)

module _ (gateway : String) where
  keep_dsn-ids :
      (id : String) (token : Json) (o : Object Panel)
      → ids (keep_dsn id token o).1.this.databases ≡ ids o.this.databases
  unfolding keep_dsn
  keep_dsn-ids id token o = ids-connected id token o.this.databases

  register-ids :
      (id : String) (o : Object Panel)
      → ids (register gateway id o).1.this.databases ≡ ids o.this.databases
  unfolding register
  register-ids id o = grind (arith, keep_dsn-ids id)

  register_active-ids :
      (db : Option Database) (o : Object Panel)
      → ids (register_active gateway db o).1.this.databases ≡ ids o.this.databases
  unfolding register_active
  register_active-ids none o = refl
  register_active-ids (some db) o = grind (arith, register-ids db.id)

  register_byod-ids :
      (o : Object Panel) → ids (register_byod gateway o).1.this.databases ≡ ids o.this.databases
  unfolding register_byod
  register_byod-ids o = ground (arith, register_active-ids o.this.active_db o)

module _ (d : Decoder) (client : Client) where
  load-IsTenant :
      (o : Object Panel) → IsTenant o.this → IsTenant (load_tenant_databases d client o).1.this
  unfolding load_tenant_databases
  load-IsTenant o h = grind (arith, h, ids-tenant_databases)

  refresh_size-ids :
      (o : Object Panel) → ids (refresh_size d client o).1.this.databases ≡ ids o.this.databases
  unfolding refresh_size
  refresh_size-ids o = grind (arith, ids-with_size)

  run_script-ids :
      (sql : String) (o : Object Panel)
      → ids (run_script d client sql o).1.this.databases ≡ ids o.this.databases
  unfolding run_script
  run_script-ids sql o = grind (arith, refresh_size-ids)

  execute_sql_script-ids :
      (o : Object Panel)
      → ids (execute_sql_script d client o).1.this.databases ≡ ids o.this.databases
  unfolding execute_sql_script
  execute_sql_script-ids o = grind (arith, run_script-ids)

  card_click-ids : (db : Database) (p : Panel) → ids (card_click db p).databases ≡ ids p.databases
  unfolding card_click
  card_click-ids db p = ground arith

  config_file-databases :
      (config : Json) (now : String) (db : Database) (o : Object Panel)
      → (config_file config now db o).1.this.databases ≡ o.this.databases
  unfolding config_file
  config_file-databases config now db o = ground arith

  live_file-databases :
      (config : Json) (now : String) (rows : List (List Json)) (o : Object Panel)
      → (live_file config now rows o).1.this.databases ≡ o.this.databases
  unfolding live_file
  live_file-databases config now [] o = refl
  live_file-databases config now (r ∷ rows) o = ground arith

  try_live-databases :
      (config : Json) (now : String) (db : Database) (o : Object Panel)
      → (try_live d client config now db o).1.this.databases ≡ o.this.databases
  unfolding try_live
  try_live-databases config now db o = grind (arith, live_file-databases)

  module _ (now : String) (db : Database) where
    abbrev config_unless : Json → Bool → Method Panel Unit
    config_unless config done = if done then pure tt else config_file config now db

    after_live-databases :
        (config : Json) (done : Result Bool) (o : Object Panel)
        → (continue (config_unless config) (done, o)).1.this.databases ≡ o.this.databases
    after_live-databases config (ok true) o = refl
    after_live-databases config (ok false) o = config_file-databases config now db o
    after_live-databases config (err e) o = refl

    after_config-databases :
        (config : Result Json) (o : Object Panel)
        → (continue
            (λ c. try_live d client c now db >>= config_unless c)
            (config, o)).1.this.databases
          ≡ o.this.databases
    after_config-databases (ok config) o =
        let live = try_live d client config now db o in
        after_live-databases config live.0 live.1 ∙ try_live-databases config now db o
    after_config-databases (err e) o = refl

    download_schema-databases :
        (o : Object Panel) → (download_schema d client now db o).1.this.databases ≡ o.this.databases
    unfolding download_schema
    download_schema-databases o =
        let config = get_backend_config client db.id o.world in
        after_config-databases config.0 (record o { world = config.1 })

  -- What the user and the browser may do, one thing after the other.
  pub data Step (gateway : String) : Object Panel → Object Panel → Type 0 where
    checks : {o : Object Panel} → Step gateway o (check_user d o)
    loads : {o : Object Panel} → Step gateway o (load_tenant_databases d client o).1
    clicks :
        {o : Object Panel} (db : Database)
        → Step gateway o (record o { this = card_click db o.this })
    types :
        {o : Object Panel} (dsn sql : String)
        → Step gateway o
            (record o { this = record o.this { dsn_input = dsn; sql_script_input = sql } })
    registers : {o : Object Panel} → Step gateway o (register_byod gateway o).1
    toggles : {o : Object Panel} (id : String) → Step gateway o (toggle_mode id o).1
    runs : {o : Object Panel} → Step gateway o (execute_sql_script d client o).1
    closes_settings :
        {o : Object Panel} → Step gateway o (record o { this = close_settings o.this })
    opens_script : {o : Object Panel} → Step gateway o (record o { this = open_script o.this })
    closes_script : {o : Object Panel} → Step gateway o (record o { this = close_script o.this })
    closes_auth : {o : Object Panel} → Step gateway o (record o { this = close_auth o.this })
    signs_in : {o : Object Panel} → Step gateway o (go_to_sign_in o).1
    downloads :
        {o : Object Panel} (now : String) (db : Database)
        → Step gateway o (download_schema d client now db o).1

  Step-IsTenant :
      (gateway : String) (o q : Object Panel) → Step gateway o q → IsTenant o.this → IsTenant q.this
  unfolding toggle_mode go_to_sign_in
  Step-IsTenant gateway o q checks h = h
  Step-IsTenant gateway o q loads h = load-IsTenant o h
  Step-IsTenant gateway o q (clicks db) h = card_click-ids db o.this ∙ h
  Step-IsTenant gateway o q (types dsn sql) h = h
  Step-IsTenant gateway o q registers h = register_byod-ids gateway o ∙ h
  Step-IsTenant gateway o q (toggles id) h =
      toggle_found-ids id (find (λ db. db.id == id) o.this.databases) o ∙ h
  Step-IsTenant gateway o q runs h = execute_sql_script-ids o ∙ h
  Step-IsTenant gateway o q closes_settings h = h
  Step-IsTenant gateway o q opens_script h = h
  Step-IsTenant gateway o q closes_script h = h
  Step-IsTenant gateway o q closes_auth h = h
  Step-IsTenant gateway o q signs_in h = h
  Step-IsTenant gateway o q (downloads now db) h = ap ids (download_schema-databases now db o) ∙ h

  -- Whatever is done, and whatever the network and the servers answer, a panel that begins with the
  -- five databases has the same five, in the same order.
  pub Reaches-IsTenant :
      {o q : Object Panel} (gateway : String)
      → Reaches (Step gateway) o q
      → IsTenant o.this
      → IsTenant q.this
  Reaches-IsTenant gateway run h =
      Reaches-keeps (Step gateway) (λ o. IsTenant o.this) (Step-IsTenant gateway) run h
