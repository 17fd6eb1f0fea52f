-- ===== src/Sdk/Client.antt =====
-- `DBMuxClient` of dbmux/sdk/ts/src/index.ts: its fields, the constructor, `init`, `hasCapability`
-- and `doRequest`.
use arcops.Prelude.{
  ℕ, String, Bool, false, Option, none, some, List, [], ◌∷◌, ◌++◌, ◌==◌, if◌then◌else◌,
}
use arcops.Js.Text.{template, decimal, drop_last_slash}
use arcops.Js.Json.{Json, object}
use arcops.Js.Exec.{Error, throw, ◌>>=◌, ◌>>◌}
use arcops.Js.World.{Request, Response, Io, fetch, is_ok, read_json}
use arcops.Js.World.WebStorage.{get_item}
use arcops.Js.World.Session.{text_or}
use arcops.Js.World.Object.{Method, io, read, update}
use arcops.Sdk.Mask.{ℤ, pos, parse_int, has_bit}

-- `transport.unary`: takes the path and the payload, and returns the response's `message`.
abbrev pub Transport : Type 0
Transport = String → Json → Io Json

pub record ClientOptions : Type 0 where
  pub base_url : Option String
  pub service_key : Option String
  pub anon_key : Option String
  pub auth_token : Option String
  pub transport : Option Transport

pub record Client : Type 0 where
  pub base_url : String
  pub service_key : Option String
  pub anon_key : Option String
  pub auth_token : Option String
  -- the property that `doRequest` reads; the class declares no such field
  pub transport : Option Transport
  pub capabilities_mask : ℤ

-- `new DBMuxError(message)`
abbrev pub dbmux_error : String → Error
dbmux_error m = record { name = "DBMuxError"; message = template ("[DBMux SDK Error] " ∷ m ∷ []) }

-- The constructor. It does not assign `transport`.
unfoldable pub new_client : ClientOptions → Client
unfolding drop_last_slash
new_client options = record {
  base_url = drop_last_slash (text_or options.base_url "http://localhost:8080");
  service_key = options.service_key;
  anon_key = options.anon_key;
  auth_token = options.auth_token;
  transport = none;
  capabilities_mask = pos 0;
}

-- `if (v) headers[k] = f(v)`
abbrev header_if : Option String → String → (String → String) → List (String × String)
header_if none k f = []
header_if (some v) k f = if v == "" then [] else (k, f v) ∷ []

abbrev pub bearer : String → String
bearer token = template ("Bearer " ∷ token ∷ [])

unfoldable pub headers_of : Client → List (String × String)
headers_of c =
    ("Content-Type", "application/json") ∷ ("Connect-Protocol-Version", "1") ∷ []
    ++ (header_if c.service_key "X-Service-Role-Key" (λ k. k)
        ++ (header_if c.anon_key "X-Anon-Key" (λ k. k)
            ++ header_if c.auth_token "Authorization" bearer))

unfoldable pub request_of : Client → String → Json → Request
unfolding headers_of
request_of c path payload = record {
  url = template (c.base_url ∷ path ∷ []);
  method = "POST";
  headers = headers_of c;
  credentials = false;
  body = some payload;
}

abbrev mask_or : ℤ → Option ℤ → ℤ
mask_or old none = old
mask_or old (some n) = n

-- A header that is missing, empty or not a number leaves the mask as it is.
unfoldable pub synced_mask : ℤ → Option String → ℤ
synced_mask old none = old
synced_mask old (some h) = if h == "" then old else mask_or old (parse_int h)

-- `if (!response.ok) throw … ; return await response.json()`
unfoldable pub finish : String → Response → Io Json
finish path response =
    if is_ok response
    then read_json response
    else throw (
        dbmux_error (
          template
            ("RPC " ∷ path ∷ " failed (" ∷ decimal response.status ∷ "): " ∷ response.text ∷ [])))

unfoldable pub over_http : String → Json → Client → Method Client Json
unfolding synced_mask finish request_of
over_http path payload c = do
  response ← io (fetch (request_of c path payload))
  update (λ c'. record c' {
    capabilities_mask =
        synced_mask c'.capabilities_mask (get_item response.headers "X-DBMux-Capabilities");
  })
  io (finish path response)

choose : String → Json → Client → Option Transport → Method Client Json
unfolding over_http
choose path payload c none = over_http path payload c
choose path payload c (some unary) = io (unary path payload)

unfoldable pub do_request : String → Json → Method Client Json
unfolding choose
do_request path payload = do c ← read (λ c. c); choose path payload c c.transport

unfoldable pub has_capability : Client → ℕ → Bool
has_capability c bit = has_bit c.capabilities_mask bit

unfoldable pub init : Method Client ℤ
init = do do_request "/dbmux.v1.Registry/ListProviders" (object []); read (λ c. c.capabilities_mask)
