-- ===== src/Web/Api.antt =====
-- `apiFetch`, web/src/lib/api.ts.
pub mod Sending
pub mod Tests
use arcops.Prelude.{String, true, Option, none, some, List, [], ◌∷◌, ◌==◌, if◌then◌else◌}
use arcops.Js.Text.{template, starts_with, decimal}
use arcops.Js.Json.{Json, str, get, or_else, to_string, is_nullish}
use arcops.Js.Entries.{put_entry}
use arcops.Js.Exec.{plain_error, throw, gets, ◌>>=◌}
use arcops.Js.World.{Io, Storage, Request, Response, fetch, read_json, is_ok}
use arcops.Js.World.Session.{text_or, stored_token}
use arcops.Js.World.Session.Token.{clean_token}
use arcops.Web.Tenant.{Decoder}

-- The options that a caller gives; `GET` where it names no method.
pub record Options : Type 0 where
  pub method : Option String
  pub headers : List (String × String)
  pub body : Option Json

abbrev method_of : Options → String
method_of o = elim o.method [ none ↦ "GET" | some m ↦ m ]

unfoldable pub url_of : String → String → String
unfolding starts_with
url_of gateway endpoint =
    template (
      gateway
      ∷ (if starts_with endpoint "/" then endpoint else template ("/" ∷ endpoint ∷ []))
      ∷ [])

abbrev pub token_of : Storage → String
token_of stored = clean_token (text_or (stored_token stored) "")

abbrev bearer_if : String → List (String × String)
bearer_if t = if t == "" then [] else ("Authorization", template ("Bearer " ∷ t ∷ [])) ∷ []

-- `{ ...base, ...extra }`
unfoldable pub spread : List (String × String) → List (String × String) → List (String × String)
unfolding put_entry
spread base [] = base
spread base ((k, v) ∷ extra) = spread (put_entry base k v) extra

unfoldable pub request_of : String → String → Options → Storage → Request
unfolding url_of spread stored_token
request_of gateway endpoint options stored = record {
  url = url_of gateway endpoint;
  method = method_of options;
  headers =
      spread (("Content-Type", "application/json") ∷ bearer_if (token_of stored)) options.headers;
  credentials = true;
  body = options.body;
}

-- The message of a refusal: what the body says, if it is JSON and says something.
abbrev said : Option Json → String → String
said none default = default
said (some v) default =
    if is_nullish v
    then default
    else to_string (or_else (get v "error") (or_else (get v "message") (str default)))

unfoldable pub refusal : Decoder → Response → String
refusal d r =
    said (d.parse r.text) (template ("API Error " ∷ decimal r.status ∷ ": " ∷ r.status_text ∷ []))

unfoldable pub api_fetch : Decoder → String → String → Options → Io Json
unfolding request_of refusal fetch read_json
api_fetch d gateway endpoint options = do
  stored ← gets (λ w. w.local)
  response ← fetch (request_of gateway endpoint options stored)
  if is_ok response then read_json response else throw (plain_error (refusal d response))
