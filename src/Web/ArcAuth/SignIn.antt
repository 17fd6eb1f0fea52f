-- ===== src/Web/ArcAuth/SignIn.antt =====
-- The session that the client's methods leave in `localStorage`.
use arcops.Prelude.{
  String, ◌≡◌, refl, true, false, none, some, List, [], ◌∷◌, ◌++◌, arith, ◌+◌, ◌-◌, ◌==◌,
}
use arcops.Js.Json.{Json, undefined, null, str, get, to_string, is_nullish}
use arcops.Js.Exec.{Error, Result, ok, err, handle, throw, ◌>>◌}
use arcops.Js.World.{World, Response, Reply, answer, is_ok}
use arcops.Js.World.Session.{stored_token, stored_user}
use arcops.Js.World.Session.Token.{clean_token}
use arcops.Web.Session.{save_login, logout}
use arcops.Web.Session.Laws.{save_login-tokens, save_login-ok, logout-clears}
use arcops.Web.ArcAuth.{fetch_with_timeout, get_token, auth_request, authenticate, get_me, fetch_me}

-- A handler that signs out and throws on.
rethrow-signs_out :
    (r : Result Json) (v : World) (e : Error)
    → (handle (λ e'. logout >> throw e') (r, v)).0 ≡ err e
    → (stored_token (handle (λ e'. logout >> throw {A = Json} e') (r, v)).1.local ≡ none)
      × (stored_user (handle (λ e'. logout >> throw {A = Json} e') (r, v)).1.local ≡ none)
unfolding logout
rethrow-signs_out (ok a) v e h = cc
rethrow-signs_out (err x) v e h = logout-clears v

present-get : (v : Json) (k t : String) → get v k ≡ str t → is_nullish v ≡ false
unfolding get
present-get undefined k t h = cc
present-get null k t h = cc
present-get _ k t h = refl

get_token-save_login :
    (value : Json) (v : World) (t : String)
    → get value "token" ≡ str t
    → (t == "") ≡ false
    → get_token (save_login value v).1 ≡ some (clean_token t)
unfolding get_token stored_token to_string
get_token-save_login value v t e f = rw ((save_login-tokens value v).0) (rw e (rw f (rw f)))

module _ (base_url : String) where
  -- A sign-in that throws, for whatever reason, leaves `localStorage` as it was.
  authenticate-error_keeps :
      (payload : Json) (w : World) (e : Error)
      → (authenticate base_url payload w).0 ≡ err e
      → (authenticate base_url payload w).1.local ≡ w.local
  unfolding authenticate fetch_with_timeout save_login
  authenticate-error_keeps payload w e h = ground arith

  -- Where `getMe` throws, also for a network failure, the user is signed out: no token and no user
  -- is stored any more.
  pub get_me-error_signs_out :
      (w : World) (e : Error)
      → (get_me base_url w).0 ≡ err e
      → (stored_token (get_me base_url w).1.local ≡ none)
        × (stored_user (get_me base_url w).1.local ≡ none)
  unfolding get_me
  get_me-error_signs_out w e h =
      let done = fetch_me base_url (get_token w) w in rethrow-signs_out done.0 done.1 e h

  -- Where it returns, `localStorage` is as it was.
  pub get_me-ok_keeps :
      (w : World) (user : Json)
      → (get_me base_url w).0 ≡ ok user
      → (get_me base_url w).1.local ≡ w.local
  unfolding get_me fetch_with_timeout
  get_me-ok_keeps w user h = ground arith

  module _ (payload : Json) (w : World) (r : Response) (rest : List Reply)
      (replies : w.replies ≡ answer r ∷ rest) (good : is_ok r ≡ true) (value : Json)
      (body : r.json ≡ some value) (t : String) (token : get value "token" ≡ str t)
      (filled : (t == "") ≡ false) where
    abbrev pub fetched : World
    fetched = record w {
      sent = w.sent ++ auth_request base_url "POST" "/authenticate" [] (some payload) ∷ [];
      replies = rest;
      timers = w.timers + 1 - 1;
    }

    pub authenticate-eq : authenticate base_url payload w ≡ (ok value, (save_login value fetched).1)
    unfolding authenticate fetch_with_timeout
    authenticate-eq = ground (arith, present-get value "token" t token, save_login-ok value fetched)

    pub authenticate-get_token :
        ((authenticate base_url payload w).0 ≡ ok value)
        × (get_token (authenticate base_url payload w).1 ≡ some (clean_token t))
    authenticate-get_token =
        rw authenticate-eq (refl, get_token-save_login value fetched t token filled)
