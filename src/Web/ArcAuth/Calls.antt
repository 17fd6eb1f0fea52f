-- ===== src/Web/ArcAuth/Calls.antt =====
-- Every request of the client, as values, and what holds of them all.
use arcops.Prelude.{String, ◌≡◌, Option, none, some, [], ◌∷◌, ◌++◌, arith}
use arcops.Js.Text.{template}
use arcops.Js.Json.{Json, undefined, str, object}
use arcops.Js.Exec.{pure, ◌>>◌}
use arcops.Js.World.{World, Io, Request}
use arcops.Web.Session.{save_login}
use arcops.Web.ArcAuth.{
  fetch_with_timeout, get_token, authorization, auth_request, authenticate, send_otp,
  send_magic_link, get_me, create_api_key, list_api_keys, delete_api_key,
}

pub data AuthCall : Type 0 where
  authenticate_with : Json → AuthCall
  otp : String → String → AuthCall
  magic_link : String → AuthCall
  me : AuthCall
  new_key : String → AuthCall
  keys : AuthCall
  drop_key : String → AuthCall

module _ (base_url : String) where
  pub perform : AuthCall → Io Json
  unfolding authenticate send_otp send_magic_link get_me create_api_key list_api_keys delete_api_key
  perform (authenticate_with payload) = authenticate base_url payload
  perform (otp target kind) = send_otp base_url target kind
  perform (magic_link email) = send_magic_link base_url email
  perform me = get_me base_url
  perform (new_key name) = create_api_key base_url name
  perform keys = list_api_keys base_url
  perform (drop_key id) = do delete_api_key base_url id; pure undefined

  -- Method, path and body of a call, and whether it carries the stored token.
  abbrev pub request_for : AuthCall → Option String → Request
  request_for (authenticate_with payload) token =
      auth_request base_url "POST" "/authenticate" [] (some payload)
  request_for (otp target kind) token =
      auth_request base_url "POST" "/otp/send" []
        (some (object (("target", str target) ∷ ("type", str kind) ∷ [])))
  request_for (magic_link email) token =
      auth_request base_url "POST" "/magic-link/send" [] (some (object (("email", str email) ∷ [])))
  request_for me token = auth_request base_url "GET" "/me" (authorization token) none
  request_for (new_key name) token =
      auth_request base_url "POST" "/keys" (authorization token)
        (some (object (("name", str name) ∷ [])))
  request_for keys token = auth_request base_url "GET" "/keys" (authorization token) none
  request_for (drop_key id) token =
      auth_request base_url "DELETE" (template ("/keys?id=" ∷ id ∷ [])) (authorization token) none

  -- Whatever the network does, a call leaves no timer behind that it has set.
  perform-timers : (c : AuthCall) (w : World) → (perform c w).1.timers ≡ w.timers
  unfolding perform fetch_with_timeout save_login
  perform-timers (authenticate_with payload) w = ground arith
  perform-timers _ w = ground arith

  -- A call sends exactly one request, with credentials; the calls about the user and the keys carry
  -- the stored token, cleaned, as a bearer token, and none if no token is stored.
  pub perform-sent :
      (c : AuthCall) (w : World) → (perform c w).1.sent ≡ w.sent ++ request_for c (get_token w) ∷ []
  unfolding perform fetch_with_timeout save_login
  perform-sent (authenticate_with payload) w = ground arith
  perform-sent _ w = ground arith
