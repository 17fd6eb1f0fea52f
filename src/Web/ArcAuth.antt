-- ===== src/Web/ArcAuth.antt =====
-- `ArcAuthClient`, web/src/lib/arcauth.ts.
pub mod Calls
pub mod SignIn
pub mod Signed
pub mod Tests
use arcops.Prelude.{
  ℕ, ◌/◌, String, true, Option, none, some, List, [], ◌∷◌, ◌++◌, not, ◌==◌, if◌then◌else◌,
}
use arcops.Js.Text.{template, decimal}
use arcops.Js.Json.{Json, str, object, array, truthy, or_else, to_string}
use arcops.Js.Exec.{Error, plain_error, pure, throw, gets, catch, finally, prop, ◌>>=◌, ◌>>◌}
use arcops.Js.World.{
  World, Io, Request, Response, fetch, read_json, is_ok, set_timeout, clear_timeout,
}
use arcops.Js.World.Session.{stored_token}
use arcops.Js.World.Session.Token.{clean_token}
use arcops.Web.Session.{save_login, logout}

-- Every caller leaves the timeout at its default.
abbrev pub timeout_ms : ℕ
timeout_ms = 8000

-- The catch block of `fetchWithTimeout`.
timed_out : Error → Io Response
timed_out e =
    if e.name == "AbortError"
    then throw (
        plain_error
          (template ("Auth request timed out after " ∷ decimal (timeout_ms / 1000) ∷ "s" ∷ [])))
    else throw e

unfoldable pub fetch_with_timeout : Request → Io Response
unfolding timed_out fetch
fetch_with_timeout req = do set_timeout; finally (catch (fetch req) timed_out) clear_timeout

-- `throw new Error(value.message || value.error || fallback)`
unfoldable pub raise : Json → String → Io Json
raise value fallback = do
  message ← prop value "message"
  error ← prop value "error"
  throw (plain_error (to_string (or_else message (or_else error (str fallback)))))

abbrev cleaned : Option String → Option String
cleaned none = none
cleaned (some raw) = if raw == "" then none else some (clean_token raw)

-- `getToken()`
unfoldable pub get_token : World → Option String
unfolding stored_token
get_token w = cleaned (stored_token w.local)

abbrev json_headers : List (String × String)
json_headers = ("Content-Type", "application/json") ∷ []

abbrev authorization : Option String → List (String × String)
authorization none = []
authorization (some t) =
    if t == "" then [] else ("Authorization", template ("Bearer " ∷ t ∷ [])) ∷ []

-- A request of the client; the header of the token is added where `signed` gives one.
unfoldable pub auth_request :
    String → String → String → List (String × String) → Option Json → Request
auth_request base_url method path extra body = record {
  url = template (base_url ∷ "/api/auth" ∷ path ∷ []);
  method = method;
  headers = json_headers ++ extra;
  credentials = true;
  body = body;
}

module _ (base_url : String) where
  post : String → List (String × String) → Json → Request
  unfolding auth_request
  post path extra payload = auth_request base_url "POST" path extra (some payload)

  -- `const data = await res.json(); if (!res.ok) throw …; return data;`
  checked_json : String → Response → Io Json
  unfolding read_json raise
  checked_json fallback res = do
    value ← read_json res
    if not (is_ok res) then raise value fallback else pure value

  save_if_token : Json → Io Json
  save_if_token value = do
    token ← prop value "token"
    if truthy token then (do save_login value; pure value) else pure value

  unfoldable pub authenticate : Json → Io Json
  unfolding post checked_json save_if_token
  authenticate payload = do
    res ← fetch_with_timeout (post "/authenticate" [] payload)
    value ← checked_json "Authentication failed" res
    save_if_token value

  unfoldable pub send_otp : String → String → Io Json
  unfolding post checked_json
  send_otp target kind = do
    res ←
        fetch_with_timeout
          (post "/otp/send" [] (object (("target", str target) ∷ ("type", str kind) ∷ [])))
    checked_json "Failed to send OTP" res

  unfoldable pub send_magic_link : String → Io Json
  unfolding post checked_json
  send_magic_link email = do
    res ← fetch_with_timeout (post "/magic-link/send" [] (object (("email", str email) ∷ [])))
    checked_json "Failed to send Magic Link" res

  -- The body of the `try` of `getMe`.
  pub fetch_me : Option String → Io Json
  unfolding auth_request read_json raise logout
  fetch_me token = do
    res ← fetch_with_timeout (auth_request base_url "GET" "/me" (authorization token) none)
    value ← read_json res
    if not (is_ok res)
        then (do logout; raise value "Unauthorized")
        else (do user ← prop value "user"; pure (or_else user value))

  unfoldable pub get_me : Io Json
  unfolding fetch_me get_token logout
  get_me = do token ← gets get_token; catch (fetch_me token) (λ e. do logout; throw e)

  unfoldable pub create_api_key : String → Io Json
  unfolding post checked_json get_token
  create_api_key name = do
    token ← gets get_token
    res ← fetch_with_timeout (post "/keys" (authorization token) (object (("name", str name) ∷ [])))
    checked_json "Failed to create API key" res

  fetch_keys : Option String → Io Json
  unfolding auth_request read_json
  fetch_keys token = do
    res ← fetch_with_timeout (auth_request base_url "GET" "/keys" (authorization token) none)
    if not (is_ok res)
        then pure (array [])
        else (do value ← read_json res; keys ← prop value "keys"; pure (or_else keys value))

  unfoldable pub list_api_keys : Io Json
  unfolding fetch_keys get_token
  list_api_keys = do token ← gets get_token; catch (fetch_keys token) (λ _. pure (array []))

  unfoldable pub delete_api_key : String → Io Unit
  unfolding auth_request get_token
  delete_api_key id = do
    token ← gets get_token
    fetch_with_timeout (
        auth_request base_url "DELETE" (template ("/keys?id=" ∷ id ∷ [])) (authorization token)
          none)
    pure tt
