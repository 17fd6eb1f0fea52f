-- ===== src/Js/World/WebStorage.antt =====
-- `localStorage`, `sessionStorage`, and a response's headers: texts by key.
use arcops.Prelude.{
  String, ◌≡◌, refl, Option, none, some, List, [], ◌∷◌, arith, eq_iff, ◌==◌, if◌then◌else◌,
}

abbrev pub Storage : Type 0
Storage = List (String × String)

-- `getItem`
unfoldable pub get_item : Storage → String → Option String
get_item [] k = none
get_item ((j, v) ∷ s) k = if j == k then some v else get_item s k

-- `removeItem`
unfoldable pub remove : Storage → String → Storage
remove [] k = []
remove ((j, v) ∷ s) k = let rest = remove s k in if j == k then rest else (j, v) ∷ rest

-- `setItem`
unfoldable pub put : Storage → String → String → Storage
put s k v = (k, v) ∷ remove s k

pub get_item-remove :
    (s : Storage) (k j : String) → get_item (remove s k) j ≡ (if k == j then none else get_item s j)
unfolding get_item remove
get_item-remove [] k j = ground arith
get_item-remove ((i, v) ∷ s) k j =
    ground (arith, get_item-remove s k j, eq_iff i k, eq_iff i j, eq_iff k j)

pub get_item-put :
    (s : Storage) (k v j : String)
    → get_item (put s k v) j ≡ (if k == j then some v else get_item s j)
unfolding get_item put
get_item-put s k v j = ground (arith, get_item-remove s k j)

pub get_item-nil : (k : String) → get_item [] k ≡ none
unfolding get_item
get_item-nil k = refl

pub ruleset storage_laws = (get_item-remove, get_item-put, get_item-nil)
