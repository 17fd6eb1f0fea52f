-- ===== src/Pages/Databases/Register.antt =====
-- Registering the DSN of a database of one's own.
use arcops.Prelude.{
  ℕ, String, ◌≡◌, refl, ◌∙◌, true, false, some, List, [], ◌∷◌, ◌++◌, ◌⊎◌, inl, inr, arith, eq_refl,
  ◌==◌, if◌then◌else◌,
}
use arcops.Js.Text.{template, trim}
use arcops.Js.Json.{Json, str, undefined, get, is_nullish, to_string}
use arcops.Js.Exec.{Error, ok, err}
use arcops.Js.World.{Storage, Response, Reply, answer, fetch, is_ok, read_json}
use arcops.Js.World.WebStorage.{get_item, put, get_item-put}
use arcops.Js.World.Object.{Object}
use arcops.Pages.Databases.{
  Database, Panel, tenant_databases, dsn_key, mode_key, with_dsn, with_mode, with_mode_of_dsn,
  text_or_undefined,
}
use arcops.Pages.Databases.Handlers.{keep_dsn, register, register_active, register_byod}
use arcops.Pages.Databases.Modes.{status_in, Keeping, Forgetting, loaded-mode, loaded-of_dsn}

-- The DSN that a list has for an identifier.
abbrev pub dsn_in : List Database → String → Json
dsn_in [] id = undefined
dsn_in (db ∷ dbs) id = if db.id == id then db.byod_dsn else dsn_in dbs id

-- What a registration stores.
abbrev registered : Storage → String → String → Storage
registered s id dsn = put (put s (dsn_key id) dsn) (mode_key id) "byod"

registered-mode :
    (s : Storage) (id dsn : String) → get_item (registered s id dsn) (mode_key id) ≡ some "byod"
registered-mode s id dsn = ground (
  arith,
  get_item-put (put s (dsn_key id) dsn) (mode_key id) "byod" (mode_key id),
  eq_refl (mode_key id),
)

abbrev pub Listed : String → Type 0
Listed id = Keeping id ⊎ Forgetting id

mode_key-dsn_key : (id : String) → Listed id → (mode_key id == dsn_key id) ≡ false
unfolding mode_key dsn_key
mode_key-dsn_key id (inl (inl h)) = rw h refl
mode_key-dsn_key id (inl (inr h)) = rw h refl
mode_key-dsn_key id (inr (inl h)) = rw h refl
mode_key-dsn_key id (inr (inr (inl h))) = rw h refl
mode_key-dsn_key id (inr (inr (inr h))) = rw h refl

registered-dsn :
    (s : Storage) (id dsn : String)
    → Listed id
    → get_item (registered s id dsn) (dsn_key id) ≡ some dsn
registered-dsn s id dsn h = ground (
  arith,
  get_item-put (put s (dsn_key id) dsn) (mode_key id) "byod" (dsn_key id),
  get_item-put s (dsn_key id) dsn (dsn_key id),
  mode_key-dsn_key id h,
  eq_refl (dsn_key id),
)

loaded-dsn :
    (id : String) (s : Storage) (size : ℕ)
    → Listed id
    → dsn_in (tenant_databases s size) id ≡ text_or_undefined (get_item s (dsn_key id))
unfolding tenant_databases with_dsn with_mode with_mode_of_dsn dsn_key
loaded-dsn id s size (inl (inl h)) = rw h refl
loaded-dsn id s size (inl (inr h)) = rw h refl
loaded-dsn id s size (inr (inl h)) = rw h refl
loaded-dsn id s size (inr (inr (inl h))) = rw h refl
loaded-dsn id s size (inr (inr (inr h))) = rw h refl

registered-byod :
    (id dsn : String) (s : Storage) (size : ℕ)
    → Listed id
    → (dsn == "") ≡ false
    → status_in (tenant_databases (registered s id dsn) size) id ≡ some "byod"
registered-byod id dsn s size (inl h) e =
    ground (arith, loaded-mode id (registered s id dsn) size h, registered-mode s id dsn)
registered-byod id dsn s size (inr h) e =
    ground
      (arith, e, loaded-of_dsn id (registered s id dsn) size h, registered-dsn s id dsn (inr h))

dsn_or_undefined :
    (id dsn : String) (s : Storage)
    → Listed id
    → (dsn == "") ≡ false
    → text_or_undefined (get_item (registered s id dsn) (dsn_key id)) ≡ str dsn
dsn_or_undefined id dsn s l n = ground (arith, n, registered-dsn s id dsn l)

abbrev pub encrypting : Object Panel → Object Panel
encrypting o = record o { this = record o.this { is_encrypting = true } }

-- What is left alone where registering fails.
abbrev pub IsUntouched : Object Panel → Object Panel → Type 0
IsUntouched o q =
    (q.world.local ≡ o.world.local)
    × ((q.this.databases ≡ o.this.databases) × (q.this.dsn_input ≡ o.this.dsn_input))

abbrev pub failure : Error → String
failure e = template ("BYODB Registration failed: " ∷ e.message ∷ [])

module _ (gateway : String) where
  register-local :
      (id dsn : String) (o : Object Panel) (r : Response) (rest : List Reply) (v : Json)
      → o.world.replies ≡ answer r ∷ rest
      → is_ok r ≡ true
      → r.json ≡ some v
      → is_nullish v ≡ false
      → get v "encrypted_dsn" ≡ str dsn
      → (register gateway id o).1.world.local ≡ registered o.world.local id dsn
  unfolding register fetch read_json keep_dsn to_string
  register-local id dsn o r rest v a b c e f = ground (arith, a, b, c, e, f)

  register_byod-local :
      (db : Database) (dsn : String) (o : Object Panel) (r : Response) (rest : List Reply)
      (v : Json)
      → o.this.active_db ≡ some db
      → (trim o.this.dsn_input == "") ≡ false
      → o.world.replies ≡ answer r ∷ rest
      → is_ok r ≡ true
      → r.json ≡ some v
      → is_nullish v ≡ false
      → get v "encrypted_dsn" ≡ str dsn
      → (register_byod gateway o).1.world.local ≡ registered o.world.local db.id dsn
  unfolding register_byod register_active
  register_byod-local db dsn o r rest v x t a b c e f =
      ground (arith, x, t, register-local db.id dsn (encrypting o) r rest v a b c e f)

  -- If the gateway answers the registration of a DSN with its encrypted text, a page that is loaded
  -- anew shows the database, any of the five, as connected by that text.
  pub register_byod-load :
      (db : Database) (dsn : String) (o : Object Panel) (r : Response) (rest : List Reply)
      (v : Json) (size : ℕ)
      → Listed db.id
      → o.this.active_db ≡ some db
      → (trim o.this.dsn_input == "") ≡ false
      → o.world.replies ≡ answer r ∷ rest
      → is_ok r ≡ true
      → r.json ≡ some v
      → is_nullish v ≡ false
      → get v "encrypted_dsn" ≡ str dsn
      → (dsn == "") ≡ false
      → (status_in (tenant_databases (register_byod gateway o).1.world.local size) db.id
          ≡ some "byod")
        × (dsn_in (tenant_databases (register_byod gateway o).1.world.local size) db.id ≡ str dsn)
  register_byod-load db dsn o r rest v size l x t a b c e f n =
      rw (register_byod-local db dsn o r rest v x t a b c e f) (
        registered-byod db.id dsn o.world.local size l n,
        loaded-dsn db.id (registered o.world.local db.id dsn) size l
            ∙ dsn_or_undefined db.id dsn o.world.local l n,
      )

  register-error :
      (id : String) (o : Object Panel) (e : Error)
      → (register gateway id o).0 ≡ err e
      → IsUntouched o (register gateway id o).1
        × ((register gateway id o).1.world.alerts ≡ o.world.alerts)
  unfolding register fetch read_json keep_dsn
  register-error id o e h = ground (arith, h)

  -- A registration that fails, by the network, by a refusal of the gateway or by an answer that is not
  -- JSON, leaves localStorage, the list and the typed DSN as they were, shows one alert with the error, and
  -- ends.
  register_byod-error :
      (db : Database) (o : Object Panel) (e : Error)
      → o.this.active_db ≡ some db
      → (trim o.this.dsn_input == "") ≡ false
      → (register gateway db.id (encrypting o)).0 ≡ err e
      → ((register_byod gateway o).0 ≡ ok tt)
        × (((register_byod gateway o).1.this.is_encrypting ≡ false)
            × (IsUntouched o (register_byod gateway o).1
                × ((register_byod gateway o).1.world.alerts ≡ o.world.alerts ++ failure e ∷ [])))
  unfolding register_byod register_active
  register_byod-error db o e x t h =
      ground (arith, x, t, h, register-error db.id (encrypting o) e h)
