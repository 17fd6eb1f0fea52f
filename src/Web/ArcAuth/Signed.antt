-- ===== src/Web/ArcAuth/Signed.antt =====
-- What the client sends after a sign-in.
use arcops.Prelude.{
  String, ◌≡◌, refl, ap, ◌∙◌, Bool, true, false, not, ◌&&◌, Option, none, some, List, [], ◌∷◌, ◌++◌,
  append_assoc, Bool-cases, inl, inr, ◌==◌, if◌then◌else◌,
}
use arcops.Js.Text.{template}
use arcops.Js.Json.{Json, str, object, get, truthy}
use arcops.Js.Exec.{ok}
use arcops.Js.World.{World, Request, Response, Reply, answer, is_ok}
use arcops.Js.World.Session.Token.{clean_token}
use arcops.Web.Session.{save_login}
use arcops.Web.ArcAuth.{authenticate, auth_request}
use arcops.Web.ArcAuth.SignIn.{authenticate-eq, authenticate-get_token, fetched}
use arcops.Web.ArcAuth.Calls.{
  AuthCall, authenticate_with, otp, magic_link, me, new_key, keys, drop_key, perform, perform-sent,
  request_for,
}

-- Method, path and body of a call, and whether it is about the user who is signed in.
abbrev pub method_of : AuthCall → String
method_of me = "GET"
method_of keys = "GET"
method_of (drop_key id) = "DELETE"
method_of _ = "POST"

abbrev pub path_of : AuthCall → String
path_of (authenticate_with payload) = "/authenticate"
path_of (otp target kind) = "/otp/send"
path_of (magic_link email) = "/magic-link/send"
path_of me = "/me"
path_of (new_key name) = "/keys"
path_of keys = "/keys"
path_of (drop_key id) = template ("/keys?id=" ∷ id ∷ [])

abbrev pub body_of : AuthCall → Option Json
body_of (authenticate_with payload) = some payload
body_of (otp target kind) = some (object (("target", str target) ∷ ("type", str kind) ∷ []))
body_of (magic_link email) = some (object (("email", str email) ∷ []))
body_of (new_key name) = some (object (("name", str name) ∷ []))
body_of _ = none

abbrev pub is_signed : AuthCall → Bool
is_signed (authenticate_with payload) = false
is_signed (otp target kind) = false
is_signed (magic_link email) = false
is_signed _ = true

-- The request of a call, with a token that is not empty.
abbrev pub request_with : String → AuthCall → String → Request
request_with base_url c token = record {
  url = template (base_url ∷ "/api/auth" ∷ path_of c ∷ []);
  method = method_of c;
  headers =
      ("Content-Type", "application/json")
      ∷ (if is_signed c && not (token == "")
          then ("Authorization", template ("Bearer " ∷ token ∷ [])) ∷ []
          else []);
  credentials = true;
  body = body_of c;
}

request_for-request_with :
    (base_url : String) (c : AuthCall) (token : String)
    → request_for base_url c (some token) ≡ request_with base_url c token
unfolding auth_request
request_for-request_with base_url (authenticate_with payload) token = refl
request_for-request_with base_url (otp target kind) token = refl
request_for-request_with base_url (magic_link email) token = refl
request_for-request_with base_url me token = elim (Bool-cases (token == "")) [
  | inl e ↦ rw e refl
  | inr e ↦ rw e refl
]
request_for-request_with base_url (new_key name) token = elim (Bool-cases (token == "")) [
  | inl e ↦ rw e refl
  | inr e ↦ rw e refl
]
request_for-request_with base_url keys token = elim (Bool-cases (token == "")) [
  | inl e ↦ rw e refl
  | inr e ↦ rw e refl
]
request_for-request_with base_url (drop_key id) token = elim (Bool-cases (token == "")) [
  | inl e ↦ rw e refl
  | inr e ↦ rw e refl
]

save_login-sent : (value : Json) (w : World) → (save_login value w).1.sent ≡ w.sent
unfolding save_login
save_login-sent value w = elim (Bool-cases (truthy (get value "user"))) [
  | inl e ↦ rw e refl
  | inr e ↦ rw e refl
]

module _ (base_url : String) (payload : Json) (w : World) (r : Response) (rest : List Reply)
    (replies : w.replies ≡ answer r ∷ rest) (good : is_ok r ≡ true) (value : Json)
    (body : r.json ≡ some value) (t : String) (token : get value "token" ≡ str t)
    (filled : (t == "") ≡ false) where
  abbrev signed_in : World
  signed_in = (authenticate base_url payload w).1

  signed_in-sent :
      signed_in.sent ≡ w.sent ++ request_with base_url (authenticate_with payload) "" ∷ []
  unfolding auth_request
  signed_in-sent =
      ap (λ done. done.1.sent)
        (authenticate-eq base_url payload w r rest replies good value body t token filled)
      ∙ save_login-sent value
          (fetched base_url payload w r rest replies good value body t token filled)

  -- A sign-in that the server answers with a token returns the answer, and the call that follows, of
  -- any method of the client, sends one request behind that of the sign-in: with the token, cleaned, as
  -- a bearer token if the call is about the user or the keys and the cleaned token is not empty, and
  -- with no token otherwise.
  pub authenticate-perform :
      (c : AuthCall)
      → ((authenticate base_url payload w).0 ≡ ok value)
        × ((perform base_url c (authenticate base_url payload w).1).1.sent
            ≡ w.sent
              ++ request_with base_url (authenticate_with payload) ""
                ∷ request_with base_url c (clean_token t)
                ∷ [])
  authenticate-perform c =
      let (done, stored) =
        authenticate-get_token base_url payload w r rest replies good value body t token filled in
      (
        done,
        perform-sent base_url c signed_in
            ∙ (ap (λ k. signed_in.sent ++ request_for base_url c k ∷ []) stored
                ∙ (ap (λ k. signed_in.sent ++ k ∷ [])
                      (request_for-request_with base_url c (clean_token t))
                    ∙ (ap (λ l. l ++ request_with base_url c (clean_token t) ∷ []) signed_in-sent
                        ∙ append_assoc w.sent
                            (request_with base_url (authenticate_with payload) "" ∷ [])
                            (request_with base_url c (clean_token t) ∷ [])))),
      )
