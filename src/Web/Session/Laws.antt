-- ===== src/Web/Session/Laws.antt =====
-- What signing in and out leave in `localStorage`.
use arcops.Prelude.{◌≡◌, none, some, Bool-cases, inl, inr}
use arcops.Js.Json.{Json, to_string, get, truthy}
use arcops.Js.Exec.{ok}
use arcops.Js.World.{World}
use arcops.Js.World.WebStorage.{get_item, get_item-remove, get_item-put}
use arcops.Js.World.Session.{stored_token, stored_user}
use arcops.Web.Session.{save_login, logout}

-- After signing out no token and no user is stored under any of the four keys.
pub logout-clears :
    (w : World) → (stored_token (logout w).1.local ≡ none) × (stored_user (logout w).1.local ≡ none)
unfolding logout stored_token stored_user
logout-clears w = (simp (get_item-remove), simp (get_item-remove))

-- After signing in both token keys hold the token, whatever was stored before.
pub save_login-tokens :
    (value : Json) (w : World)
    → (get_item (save_login value w).1.local "arcauth_token" ≡ some (to_string (get value "token")))
      × (get_item (save_login value w).1.local "authx_token" ≡ some (to_string (get value "token")))
unfolding save_login
save_login-tokens value w = elim (Bool-cases (truthy (get value "user"))) [
  | inl e ↦ (rw e (simp get_item-put), rw e (simp get_item-put))
  | inr e ↦ (rw e (simp get_item-put), rw e (simp get_item-put))
]

pub save_login-ok : (value : Json) (w : World) → (save_login value w).0 ≡ ok tt
unfolding save_login
save_login-ok value w = elim (Bool-cases (truthy (get value "user"))) [
  | inl e ↦ rw e
  | inr e ↦ rw e
]
