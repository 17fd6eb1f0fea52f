-- ===== src/Pages/Login.antt =====
-- `LoginPage`, web/src/components/login-page.tsx: its state and its handlers.
pub mod View
pub mod Target
pub mod Outcomes
pub mod Tests
use Prim.Native.Char.{code}
use Prim.Native.String.{[], ◌∷◌}
use arcops.Prelude.{
  ℕ, ◌+◌, String, Bool, true, false, ◌||◌, Option, none, some, List, [], ◌∷◌, eqb, leb, ltb, ◌==◌,
  if◌then◌else◌,
}
use arcops.Js.Text.{template, decimal, includes, to_lower}
use arcops.Js.Text.Uri.{encode_uri_component}
use arcops.Js.Json.{Json, str, object, truthy, or_else, to_string}
use arcops.Js.Exec.{plain_error, pure, throw, catch, finally, gets, prop, ◌>>=◌, ◌>>◌}
use arcops.Js.World.{Io, Request, fetch, read_json, is_ok, navigate, set_timeout, Storage}
use arcops.Js.World.Object.{Object, Method, io, read, update}
use arcops.Js.World.WebStorage.{get_item}
use arcops.Js.World.Session.{text_or, or_text, is_text, stored_token}
use arcops.Web.Session.{save_login, logout}

pub record Form : Type 0 where
  pub email : String
  pub otp_code : String
  pub otp_sent : Bool
  pub loading : Bool
  pub error : Option String
  pub success : Option String

abbrev pub set_error : Option String → Method Form Unit
set_error e = update λ f. record f { error = e }

abbrev pub set_success : Option String → Method Form Unit
set_success e = update λ f. record f { success = e }

abbrev pub set_loading : Bool → Object Form → Object Form
set_loading b o = record o { this = record o.this { loading = b } }

-- `res.status === 403 || res.status === 401 || res.status === 429 || res.status >= 500`
abbrev pub has_error_page : ℕ → Bool
has_error_page status = eqb status 403 || eqb status 401 || eqb status 429 || leb 500 status

-- `/error?code=…&message=…`
unfoldable pub error_path : ℕ → String → String
unfolding encode_uri_component
error_path status message =
    template ("/error?code=" ∷ decimal status ∷ "&message=" ∷ encode_uri_component message ∷ [])

unfoldable pub refuse_with : ℕ → String → Method Form Unit
unfolding error_path
refuse_with status said =
    if has_error_page status
    then io (navigate (error_path status said))
    else throw (plain_error said)

-- What a refusal does: the statuses that have an error page go there, the others throw.
unfoldable pub refuse : Json → ℕ → String → Method Form Unit
unfolding refuse_with
refuse value status what = do
  message ← prop value "message"
  error ← prop value "error"
  refuse_with status (
      to_string (
        or_else message
          (or_else error (str (template ("HTTP " ∷ decimal status ∷ ": " ∷ what ∷ []))))))

-- The length of a text in UTF-16 units.
unfoldable pub utf_16_length : String → ℕ
utf_16_length [] = 0
utf_16_length (c ∷ s) = (if ltb (code c) 0x10000 then 1 else 2) + utf_16_length s

module _ (gateway : String) where
  -- A request of the page to the auth service, in the dashboard's scope.
  abbrev pub scoped_request : String → List (String × Json) → Request
  scoped_request path payload = record {
    url = template (gateway ∷ path ∷ "?auth=dashboard" ∷ []);
    method = "POST";
    headers = ("Content-Type", "application/json") ∷ ("X-Auth-Scope", "dashboard") ∷ [];
    credentials = true;
    body = some (object payload);
  }

  abbrev pub otp_request : Form → Request
  otp_request f =
      scoped_request "/api/auth/otp/send" (("target", str f.email) ∷ ("type", str "email") ∷ [])

  abbrev pub verify_request : Form → Request
  verify_request f =
      scoped_request "/api/auth/authenticate"
        (("method", str "otp") ∷ ("target", str f.email) ∷ ("code", str f.otp_code) ∷ [])

  -- The try, catch and finally blocks that both handlers have.
  abbrev guarded : Method Form Unit → Method Form Unit
  guarded body = do
    set_error none
    set_success none
    update λ f. record f { loading = true }
    finally (catch body (λ e. set_error (some e.message))) (set_loading false)

  code_sent : Method Form Unit
  code_sent = do
    update λ f. record f { otp_sent = true }
    update λ f. record f {
      success =
          some
            (template ("6-Digit OTP code sent to " ∷ f.email ∷ "! Please check your inbox." ∷ []));
    }

  -- `handleSendOTP`
  unfoldable pub send_otp : Method Form Unit
  unfolding refuse code_sent read_json fetch
  send_otp = do
    form ← read (λ f. f)
    if form.email == ""
        then set_error (some "Please enter a valid admin email address.")
        else guarded (do
          res ← io (fetch (otp_request form))
          value ← io (read_json res)
          if is_ok res then code_sent else refuse value res.status "Failed to send OTP code")

  -- Signed in; the page goes to `/` when the timer fires.
  signed_in : Json → Method Form Unit
  unfolding save_login
  signed_in value = do
    io (save_login value)
    set_success (some "Dashboard Admin authenticated successfully! Redirecting...")
    io set_timeout

  accept : Json → Method Form Unit
  unfolding signed_in
  accept value = do token ← prop value "token"; if truthy token then signed_in value else pure tt

  -- `handleVerifyOTP`
  unfoldable pub verify_otp : Method Form Unit
  unfolding refuse accept read_json fetch utf_16_length
  verify_otp = do
    form ← read (λ f. f)
    if form.otp_code == "" || ltb (utf_16_length form.otp_code) 6
        then set_error (some "Please enter the 6-digit OTP code sent to your email.")
        else guarded (do
          res ← io (fetch (verify_request form))
          value ← io (read_json res)
          if is_ok res then accept value else refuse value res.status "OTP verification failed")

  abbrev revoke_request : String → Request
  revoke_request token = record {
    url = template (gateway ∷ "/api/auth/logout" ∷ []);
    method = "POST";
    headers = ("Authorization", template ("Bearer " ∷ token ∷ [])) ∷ [];
    credentials = true;
    body = none;
  }

  -- The session of the backend is revoked if there was a token; a failure is ignored.
  unfoldable pub revoke : Option String → Io Unit
  unfolding fetch
  revoke none = pure tt
  revoke (some t) =
      if t == "" then pure tt else catch (do fetch (revoke_request t); pure tt) (λ _. pure tt)

  abbrev restricted : String
  restricted =
      "403 Forbidden: Access restricted to authorized admin emails configured in ADMIN_EMAILS."

  -- The effect that runs when the page opens, on the query of its URL.
  unfoldable pub show_refusal : Storage → Method Form Unit
  unfolding get_item
  show_refusal query =
      let shown = or_text (get_item query "error") (get_item query "message") in
      if is_text shown
        || text_or (or_text (get_item query "code") (get_item query "status")) "" == "403"
      then set_error (some (text_or shown restricted))
      else pure tt

  unfoldable pub open_login : Storage → Method Form Unit
  unfolding stored_token
  open_login query = do
    show_refusal query
    token ← io (gets (λ w. stored_token w.local))
    io logout
    io (revoke token)

-- `isForbiddenError`
unfoldable pub is_forbidden_error : Option String → Bool
unfolding includes to_lower
is_forbidden_error none = false
is_forbidden_error (some e) =
    includes (to_lower e) "forbidden"
    || includes (to_lower e) "access denied"
    || includes (to_lower e) "403"
    || includes (to_lower e) "restricted"

-- `handleSocialOAuth`: where the browser goes.
unfoldable pub oauth_url : String → String → String → String
unfolding encode_uri_component
oauth_url gateway provider origin = template (
    gateway
    ∷ "/api/auth/oauth/"
    ∷ provider
    ∷ "?auth=dashboard&redirect_url="
    ∷ encode_uri_component origin
    ∷ [])
