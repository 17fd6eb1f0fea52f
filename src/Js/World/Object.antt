-- ===== src/Js/World/Object.antt =====
-- A method or an event handler: an action on an object, or on a component's state, and the world.
use arcops.Prelude.{String, List, [], ◌∷◌}
use arcops.Js.Exec.{Exec, pure}
use arcops.Js.World.{World, Io}

pub record Object (S : Type 0) : Type 0 where
  pub this : S
  pub world : World

abbrev pub Method : Type 0 → Type 0 → Type 0
Method S A = Exec (Object S) A

module _ {S : Type 0} where
  abbrev pub io : {A : Type 0} → Io A → Method S A
  io m o = ((m o.world).0, record o { world = (m o.world).1 })

  abbrev pub read : {A : Type 0} → (S → A) → Method S A
  read f o = pure (f o.this) o

  abbrev pub update : (S → S) → Method S (Unit {0})
  update f o = pure tt (record o { this = f o.this })

-- The names that every object inherits.
abbrev pub inherited : List String
inherited =
    "constructor" ∷ "hasOwnProperty" ∷ "isPrototypeOf" ∷ "propertyIsEnumerable" ∷ "toLocaleString"
    ∷ "toString" ∷ "valueOf" ∷ "__proto__" ∷ "__defineGetter__" ∷ "__defineSetter__"
    ∷ "__lookupGetter__" ∷ "__lookupSetter__" ∷ []
