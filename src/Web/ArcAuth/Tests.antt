-- ===== src/Web/ArcAuth/Tests.antt =====
-- The auth client on concrete inputs.
use arcops.Prelude.{◌≡◌, refl, none, [], ◌∷◌, String}
use arcops.Js.Json.{Json, str, object, get}
use arcops.Js.Exec.{ok, err}
use arcops.Js.World.{World, Response, answer, network_error}
use arcops.Js.World.Session.{stored_token, stored_user}
use arcops.Js.World.Session.Token.{clean_token}
use arcops.Js.World.Sample.{world, reply_json}
use arcops.Web.ArcAuth.{fetch_with_timeout, authenticate, get_me}
use arcops.Web.ArcAuth.SignIn.{get_me-error_signs_out, get_me-ok_keeps}
use arcops.Web.ArcAuth.Calls.{perform, keys, authenticate_with}
use arcops.Web.ArcAuth.Signed.{request_with, authenticate-perform}

abbrev gateway : String
gateway = "http://localhost:8000"

abbrev granted : Json
granted = object (("token", str "Bearer abc") ∷ [])

abbrev granted_reply : Response
granted_reply = reply_json 200 [] granted

abbrev offline : World
offline = world (("arcauth_token", "abc") ∷ []) []

abbrev waiting : World
waiting = world [] (answer granted_reply ∷ [])

offline_fails : (get_me gateway offline).0 ≡ err network_error
unfolding get_me fetch_with_timeout
offline_fails = refl

get_me-error_signs_out_example :
    (stored_token (get_me gateway offline).1.local ≡ none)
    × (stored_user (get_me gateway offline).1.local ≡ none)
get_me-error_signs_out_example = get_me-error_signs_out gateway offline network_error offline_fails

sign_in_fails : (authenticate gateway granted offline).0 ≡ err network_error
unfolding authenticate fetch_with_timeout
sign_in_fails = refl

me_returns : (get_me gateway waiting).0 ≡ ok granted
unfolding get_me fetch_with_timeout get
me_returns = refl

get_me-ok_keeps_example : (get_me gateway waiting).1.local ≡ []
get_me-ok_keeps_example = get_me-ok_keeps gateway waiting granted me_returns

authenticate-perform_example :
    ((authenticate gateway (object []) waiting).0 ≡ ok granted)
    × ((perform gateway keys (authenticate gateway (object []) waiting).1).1.sent
        ≡ request_with gateway (authenticate_with (object [])) ""
          ∷ request_with gateway keys (clean_token "Bearer abc")
          ∷ [])
unfolding get
authenticate-perform_example =
    authenticate-perform gateway (object []) waiting granted_reply [] refl refl granted refl
      "Bearer abc" refl refl keys

-- The call carries the token without the word Bearer.
signed_test :
    (request_with gateway keys (clean_token "Bearer abc")).headers
    ≡ ("Content-Type", "application/json") ∷ ("Authorization", "Bearer abc") ∷ []
unfolding clean_token
signed_test = refl
