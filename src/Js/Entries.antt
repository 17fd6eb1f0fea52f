-- ===== src/Js/Entries.antt =====
-- An object used as a map from identifiers.
use arcops.Prelude.{
  String, ◌≡◌, Option, none, some, List, [], ◌∷◌, arith, eq_refl, eq_iff, ◌==◌, if◌then◌else◌,
}

module _ {A : Type 0} where
  -- `m[k]`
  unfoldable pub get_entry : List (String × A) → String → Option A
  get_entry [] k = none
  get_entry ((j, v) ∷ m) k = if j == k then some v else get_entry m k

  -- `{ ...m, [k]: v }`
  unfoldable pub put_entry : List (String × A) → String → A → List (String × A)
  put_entry [] k v = (k, v) ∷ []
  put_entry ((j, w) ∷ m) k v =
      let rest = put_entry m k v in if j == k then (k, v) ∷ m else (j, w) ∷ rest

  pub get_entry-put_entry :
      (m : List (String × A)) (k : String) (v : A) → get_entry (put_entry m k v) k ≡ some v
  unfolding get_entry put_entry
  get_entry-put_entry [] k v = ground (arith, eq_refl k)
  get_entry-put_entry ((j, w) ∷ m) k v =
      ground (arith, eq_refl k, eq_iff j k, get_entry-put_entry m k v)
