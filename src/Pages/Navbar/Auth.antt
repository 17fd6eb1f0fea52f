-- ===== src/Pages/Navbar/Auth.antt =====
-- Signing out, and signing in by a redirect.
use arcops.Prelude.{
  String, ◌≡◌, refl, true, false, Option, none, some, [], ◌∷◌, ◌++◌, append_assoc, arith, ◌==◌,
}
use arcops.Js.Json.{Json, null}
use arcops.Js.Exec.{ok}
use arcops.Js.World.{Storage}
use arcops.Js.World.WebStorage.{get_item, put, remove, storage_laws}
use arcops.Js.World.Session.{stored_token, stored_user}
use arcops.Js.World.Object.{Object}
use arcops.Web.Session.{logout}
use arcops.Web.Tenant.{Decoder}
use arcops.Pages.Shell.{admits}
use arcops.Pages.Navbar.{Nav, saved_user, handle_logout, greet, take_texts, take_params}

-- The four removals of a logout.
abbrev signed_out : Storage → Storage
signed_out s =
    remove (remove (remove (remove s "arcauth_token") "authx_token") "arcauth_user") "authx_user"

saved_user-signed_out : (d : Decoder) (s : Storage) → saved_user d (signed_out s) ≡ null
unfolding saved_user stored_user
saved_user-signed_out d s = simp storage_laws

-- Signing out with the bar leaves in localStorage what signing out with the client of ArcAuth leaves and
-- shows no user, but it keeps the cookie of the session, and it tells the page of a login.
pub handle_logout-outcome :
    (d : Decoder) (o : Object Nav)
    → ((handle_logout d o).1.world.local ≡ (logout o.world).1.local)
      × (((handle_logout d o).1.this.current_user ≡ null)
          × (((handle_logout d o).1.world.cookie ≡ o.world.cookie)
              × ((handle_logout d o).1.world.events
                  ≡ o.world.events ++ "arcauth_login_success" ∷ "authx_login_success" ∷ [])))
unfolding handle_logout logout
handle_logout-outcome d o = (
  refl,
  (
    saved_user-signed_out d o.world.local,
    (refl, append_assoc o.world.events ("arcauth_login_success" ∷ []) ("authx_login_success" ∷ [])),
  ),
)

-- What a redirect stores.
abbrev signed_in : Storage → String → String → Storage
signed_in s token user =
    put (put (put (put s "arcauth_token" token) "authx_token" token) "arcauth_user" user)
      "authx_user" user

stored_token-signed_in :
    (s : Storage) (token user : String)
    → (token == "") ≡ false
    → stored_token (signed_in s token user) ≡ some token
unfolding stored_token
stored_token-signed_in s token user h = simp (h, storage_laws)

greet-local :
    (user : Option Json) (o : Object Nav)
    → ((greet user o).0 ≡ ok tt) × ((greet user o).1.world.local ≡ o.world.local)
greet-local none o = (refl, refl)
greet-local (some user) o = (refl, refl)

abbrev stored_by : String → String → Object Nav → Object Nav
stored_by token user o = record o {
  world = record o.world { local = signed_in o.world.local token user };
}

take_texts-local :
    (d : Decoder) (token user : String) (o : Object Nav)
    → ((take_texts d token user o).0 ≡ ok tt)
      × ((take_texts d token user o).1.world.local ≡ signed_in o.world.local token user)
unfolding take_texts
take_texts-local d token user o = greet-local (d.parse user) (stored_by token user o)

-- A redirect with a token and a user signs in, also where the text of the user is not JSON: nothing is
-- thrown, the token is stored, and the guarded pages are shown.
take_params-admits :
    (d : Decoder) (query : Storage) (token user : String) (o : Object Nav)
    → get_item query "token" ≡ some token
    → get_item query "user" ≡ some user
    → (token == "") ≡ false
    → (user == "") ≡ false
    → ((take_params d query o).0 ≡ ok tt)
      × ((stored_token (take_params d query o).1.world.local ≡ some token)
          × (admits (take_params d query o).1.world.local ≡ true))
unfolding take_params admits
take_params-admits d query token user o f g h k = ground (
  arith,
  f,
  g,
  h,
  k,
  take_texts-local d token user o,
  stored_token-signed_in o.world.local token user h,
)
