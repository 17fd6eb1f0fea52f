-- ===== src/Web/Session.antt =====
-- Signing in and out: the same lines stand in web/src/lib/arcauth.ts and in
-- web/src/components/login-page.tsx.
pub mod Laws
use arcops.Prelude.{String, ◌++◌, [], ◌∷◌, if◌then◌else◌}
use arcops.Js.Json.{Json, truthy, to_string, get}
use arcops.Js.Json.Stringify.{stringify}
use arcops.Js.Exec.{pure, modify, ◌>>=◌, ◌>>◌}
use arcops.Js.World.{World, Io, dispatch_event, set_local, remove_local}

-- What `if (data.token) { … }` does inside: both token keys, both user keys, and two events.
save_user : Json → Io Unit
save_user user =
    if truthy user
    then (do set_local "arcauth_user" (stringify user); set_local "authx_user" (stringify user))
    else pure tt

unfoldable pub save_login : Json → Io Unit
unfolding save_user
save_login value = do
  set_local "arcauth_token" (to_string (get value "token"))
  set_local "authx_token" (to_string (get value "token"))
  save_user (get value "user")
  dispatch_event "arcauth_login_success"
  dispatch_event "authx_login_success"

-- `logout()`
unfoldable pub logout : Io Unit
logout = do
  remove_local "arcauth_token"
  remove_local "authx_token"
  remove_local "arcauth_user"
  remove_local "authx_user"
  modify
      (λ w. record w { cookie = "authx_session=; Path=/; Expires=Thu, 01 Jan 1970 00:00:01 GMT;" })
  dispatch_event "arcauth_logout"
  dispatch_event "authx_logout"
