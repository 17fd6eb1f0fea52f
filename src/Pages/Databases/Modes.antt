-- ===== src/Pages/Databases/Modes.antt =====
-- Switching the mode of a database, and what a page that is loaded anew shows of it.
use arcops.Prelude.{
  ℕ, String, ◌≡◌, refl, sym, ap, ◌∙◌, false, Option, none, some, List, [], ◌∷◌, find, All, arith,
  eq_iff, eq_refl, Bool-cases, inl, inr, ◌⊎◌, ◌==◌, if◌then◌else◌,
}
use arcops.Js.World.{Storage}
use arcops.Js.World.WebStorage.{get_item, put, get_item-put}
use arcops.Js.World.Session.{text_or, is_text}
use arcops.Js.World.Object.{Object}
use arcops.Pages.Databases.{
  Database, Panel, tenant_databases, dsn_key, mode_key, with_dsn, with_mode, with_mode_of_dsn,
}
use arcops.Pages.Databases.Handlers.{other_mode, switch_all, lacks_dsn, toggle_found, toggle_mode}

-- No two databases have the same identifier.
abbrev pub IsDistinct : List Database → Type 0
IsDistinct [] = Unit
IsDistinct (db ∷ dbs) = All (λ e. (e.id == db.id) ≡ false) dbs × IsDistinct dbs

-- The status that a list shows of an identifier.
abbrev pub status_in : List Database → String → Option String
status_in [] id = none
status_in (db ∷ dbs) id = if db.id == id then some db.status else status_in dbs id

switch_all-absent :
    (id : String) (dbs : List Database) (s : Storage)
    → All (λ e. (e.id == id) ≡ false) dbs
    → ((switch_all id dbs s).0 ≡ dbs) × ((switch_all id dbs s).1 ≡ s)
unfolding switch_all
switch_all-absent id [] s h = (refl, refl)
switch_all-absent id (db ∷ dbs) s (e, h) = ground (arith, e, switch_all-absent id dbs s h)

absent_of :
    (id k : String) (dbs : List Database)
    → k ≡ id
    → All (λ e. (e.id == k) ≡ false) dbs
    → All (λ e. (e.id == id) ≡ false) dbs
absent_of id k dbs q h = rw (sym q) h

-- What is shown and what is stored, after a switch.
switch_all-agrees :
    (id : String) (dbs : List Database) (s : Storage) (db : Database)
    → IsDistinct dbs
    → find (λ e. e.id == id) dbs ≡ some db
    → (status_in (switch_all id dbs s).0 id ≡ some (other_mode db.status))
      × (get_item (switch_all id dbs s).1 (mode_key id) ≡ some (other_mode db.status))
unfolding switch_all
switch_all-agrees id [] s db h f = ground (arith, f)
switch_all-agrees id (e ∷ dbs) s db (p, h) f = elim (Bool-cases (e.id == id)) [
  | inl g ↦ ground (
    arith,
    g,
    f,
    eq_refl (mode_key id),
    switch_all-absent id dbs (put s (mode_key id) (other_mode e.status))
        (absent_of id e.id dbs ((eq_iff e.id id).0 g) p),
    get_item-put s (mode_key id) (other_mode e.status) (mode_key id),
  )
  | inr g ↦ ground (arith, g, f, switch_all-agrees id dbs s db h)
]

switch_all-get_item :
    (id j : String) (dbs : List Database) (s : Storage)
    → (mode_key id == j) ≡ false
    → get_item (switch_all id dbs s).1 j ≡ get_item s j
unfolding switch_all
switch_all-get_item id j [] s h = refl
switch_all-get_item id j (db ∷ dbs) s h = elim (Bool-cases (db.id == id)) [
  | inl e ↦ ground (
    arith,
    h,
    e,
    switch_all-get_item id j dbs (put s (mode_key id) (other_mode db.status)) h,
    get_item-put s (mode_key id) (other_mode db.status) j,
  )
  | inr e ↦ ground (arith, h, e, switch_all-get_item id j dbs s h)
]

other_mode_or : (status d : String) → text_or (some (other_mode status)) d ≡ other_mode status
other_mode_or status d = elim (Bool-cases (status == "managed")) [ inl e ↦ rw e | inr e ↦ rw e ]

-- What a loaded list shows: PostgreSQL and Redis their stored mode, the others whether they have a DSN.
abbrev pub Keeping : String → Type 0
Keeping id = (id ≡ "postgres") ⊎ (id ≡ "redis")

pub loaded-mode :
    (id : String) (s : Storage) (size : ℕ)
    → Keeping id
    → status_in (tenant_databases s size) id ≡ some (text_or (get_item s (mode_key id)) "managed")
unfolding tenant_databases with_dsn with_mode with_mode_of_dsn mode_key
loaded-mode id s size (inl h) = rw h refl
loaded-mode id s size (inr h) = rw h refl

pub toggle_mode-agrees :
    (id : String) (db : Database) (o : Object Panel)
    → IsDistinct o.this.databases
    → find (λ e. e.id == id) o.this.databases ≡ some db
    → lacks_dsn db o ≡ false
    → (status_in (toggle_mode id o).1.this.databases id ≡ some (other_mode db.status))
      × (get_item (toggle_mode id o).1.world.local (mode_key id) ≡ some (other_mode db.status))
unfolding toggle_mode toggle_found
toggle_mode-agrees id db o h f g =
    ground (arith, f, g, switch_all-agrees id o.this.databases o.world.local db h f)

-- The mode to which PostgreSQL or Redis is switched is shown, and a page that is loaded anew shows it
-- too, if no two databases have one identifier and a managed one has a DSN to connect to.
pub toggle_mode-load :
    (id : String) (db : Database) (o : Object Panel) (size : ℕ)
    → Keeping id
    → IsDistinct o.this.databases
    → find (λ e. e.id == id) o.this.databases ≡ some db
    → lacks_dsn db o ≡ false
    → (status_in (toggle_mode id o).1.this.databases id ≡ some (other_mode db.status))
      × (status_in (tenant_databases (toggle_mode id o).1.world.local size) id
          ≡ some (other_mode db.status))
toggle_mode-load id db o size k h f g = ground (
  arith,
  toggle_mode-agrees id db o h f g,
  loaded-mode id (toggle_mode id o).1.world.local size k,
  other_mode_or db.status "managed",
)

abbrev pub Forgetting : String → Type 0
Forgetting id = (id ≡ "mysql") ⊎ ((id ≡ "mongodb") ⊎ (id ≡ "vector"))

toggle_found-get_item :
    (id j : String) (found : Option Database) (o : Object Panel)
    → (mode_key id == j) ≡ false
    → get_item (toggle_found id found o).1.world.local j ≡ get_item o.world.local j
unfolding toggle_found
toggle_found-get_item id j none o h = refl
toggle_found-get_item id j (some db) o h =
    ground (arith, switch_all-get_item id j o.this.databases o.world.local h)

abbrev pub of_dsn : String → Option String → String
of_dsn without dsn = if is_text dsn then "byod" else without

pub loaded-of_dsn :
    (id : String) (s : Storage) (size : ℕ)
    → Forgetting id
    → status_in (tenant_databases s size) id
      ≡ some (of_dsn (if id == "vector" then "managed" else "configure") (get_item s (dsn_key id)))
unfolding tenant_databases with_dsn with_mode with_mode_of_dsn dsn_key
loaded-of_dsn id s size (inl h) = rw h refl
loaded-of_dsn id s size (inr (inl h)) = rw h refl
loaded-of_dsn id s size (inr (inr h)) = rw h refl

mode_key-dsn_key : (id : String) → Forgetting id → (mode_key id == dsn_key id) ≡ false
unfolding mode_key dsn_key
mode_key-dsn_key id (inl h) = rw h refl
mode_key-dsn_key id (inr (inl h)) = rw h refl
mode_key-dsn_key id (inr (inr h)) = rw h refl

-- A page that is loaded anew shows MySQL, MongoDB and the vector database as if their mode had never
-- been switched.
pub toggle_mode-load_forgets :
    (id : String) (o : Object Panel) (size : ℕ)
    → Forgetting id
    → status_in (tenant_databases (toggle_mode id o).1.world.local size) id
      ≡ status_in (tenant_databases o.world.local size) id
unfolding toggle_mode
toggle_mode-load_forgets id o size k =
    loaded-of_dsn id (toggle_mode id o).1.world.local size k
    ∙ (ap (λ m. some (of_dsn (if id == "vector" then "managed" else "configure") m))
          (toggle_found-get_item id (dsn_key id) (find (λ db. db.id == id) o.this.databases) o
            (mode_key-dsn_key id k))
        ∙ sym (loaded-of_dsn id o.world.local size k))
