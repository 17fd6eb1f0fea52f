-- ===== src/Pages/Shell.antt =====
-- The session handshake of web/src/App.tsx and the guard of web/src/components/protected-route.tsx.
pub mod Handshake
pub mod Tests
use arcops.Prelude.{
  ℕ, String, Bool, true, false, ◌||◌, Option, none, some, eqb, ◌==◌, if◌then◌else◌,
}
use arcops.Js.Json.{Json, truthy}
use arcops.Js.Json.Stringify.{stringify}
use arcops.Js.Exec.{Error, pure, catch, gets, ◌>>=◌, ◌>>◌}
use arcops.Js.World.{World, Io, Storage, set_local, dispatch_event}
use arcops.Js.World.WebStorage.{get_item}
use arcops.Js.World.Session.{is_text, stored_token, stored_user}
use arcops.Web.Session.{logout}
use arcops.Web.ArcAuth.{get_me}
use arcops.Web.Tenant.{Decoder, ◌>>=◌ as ◌then_parse◌}

-- `JSON.parse(decodeURIComponent(urlUser))`
decoded : Decoder → String → Option Json
decoded d s = d.decode_uri_component s then_parse d.parse

store_user : Json → Io Unit
unfolding stringify
store_user user = do
  set_local "arcauth_user" (stringify user)
  set_local "authx_user" (stringify user)

store_decoded : Option Json → Io Unit
unfolding store_user
store_decoded none = pure tt
store_decoded (some user) = store_user user

greet : Json → Io Unit
unfolding store_user
greet user =
    if truthy user
    then (do
      store_user user
      dispatch_event "arcauth_login_success"
      dispatch_event "authx_login_success")
    else pure tt

-- `err.status`: no error that is thrown here has one.
status_of : Error → Option ℕ
status_of e = none

is_401 : Option ℕ → Bool
is_401 none = false
is_401 (some n) = eqb n 401

log_out_on_401 : Error → Io Unit
unfolding logout is_401 status_of
log_out_on_401 e = if is_401 (status_of e) then logout else pure tt

module _ (d : Decoder) where
  take_user : Option String → Io Unit
  unfolding store_decoded decoded
  take_user none = pure tt
  take_user (some s) = if s == "" then pure tt else store_decoded (decoded d s)

  -- The token and the user of an OAuth redirect, from the query of the URL. That the query is then
  -- taken off the URL is not modelled.
  unfoldable pub take_redirect : Storage → Option String → Io Unit
  unfolding take_user get_item
  take_redirect query none = pure tt
  take_redirect query (some token) = if token == "" then pure tt else (do
    set_local "arcauth_token" token
    set_local "authx_token" token
    take_user (get_item query "user"))

-- The second step, with what `localStorage` now holds.
unfoldable pub hydrate : String → Io Unit
unfolding stored_user stored_token get_me greet log_out_on_401
hydrate gateway = do
  signed_in ← gets (λ w. is_text (stored_user w.local) || is_text (stored_token w.local))
  if signed_in then catch (do user ← get_me gateway; greet user) log_out_on_401 else pure tt

module _ (d : Decoder) (gateway : String) where
  -- `syncSessionWithBackend`, at a path and with the query of the URL
  unfoldable pub sync_session : String → Storage → Io Unit
  unfolding logout take_redirect hydrate get_item
  sync_session path query =
      if path == "/login"
      then logout
      else (do take_redirect d query (get_item query "token"); hydrate gateway)

-- Whether `ProtectedRoute` shows its page; it goes to `/login` otherwise.
unfoldable pub admits : Storage → Bool
unfolding stored_token
admits stored = is_text (stored_token stored)
