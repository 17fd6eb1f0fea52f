-- ===== src/Web/DbmuxSdk.antt =====
-- The dashboard's copy of the DBMux SDK, web/src/lib/dbmux-sdk.ts.
use arcops.Prelude.{
  ℕ, String, Bool, Option, none, some, List, [], ◌∷◌, ◌++◌, get_or, map, ◌==◌, true, if◌then◌else◌,
}
use arcops.Js.Text.{template, drop_last_slash}
use arcops.Js.Json.{Json, str, num, object, array}
use arcops.Js.Exec.{◌>>=◌, ◌>>◌, gets, pure}
use arcops.Js.World.{Storage, Io, Request, fetch}
use arcops.Js.World.Session.{text_or, or_text, stored_token}
use arcops.Js.World.Session.Token.{clean_token}
use arcops.Sdk.Mask.{ℤ, pos, has_bit}
use arcops.Sdk.Client.{ClientOptions, Transport, bearer, finish}

-- `transport` is kept by the constructor and read by no method, and `capabilitiesMask` is never
-- written.
pub record Client : Type 0 where
  pub base_url : String
  pub service_key : Option String
  pub anon_key : Option String
  pub auth_token : Option String
  pub transport : Option Transport
  pub capabilities_mask : ℤ

unfoldable pub new_client : ClientOptions → Client
unfolding drop_last_slash
new_client options = record {
  base_url = drop_last_slash (text_or options.base_url "http://localhost:8000/rpc");
  service_key = options.service_key;
  anon_key = options.anon_key;
  auth_token = options.auth_token;
  transport = options.transport;
  capabilities_mask = pos 0;
}

-- The token that `localStorage` holds now, or else the one of the options, cleaned.
unfoldable pub current_token : Client → Storage → String
unfolding stored_token
current_token c stored = clean_token (text_or (or_text (stored_token stored) c.auth_token) "")

abbrev header_if : Option String → String → List (String × String)
header_if none k = []
header_if (some v) k = if v == "" then [] else (k, v) ∷ []

abbrev bearer_if : String → List (String × String)
bearer_if t = if t == "" then [] else ("Authorization", bearer t) ∷ []

unfoldable pub request_of : Client → Storage → String → Json → Request
unfolding current_token
request_of c stored path payload = record {
  url = template (c.base_url ∷ path ∷ []);
  method = "POST";
  headers =
      ("Content-Type", "application/json") ∷ ("Connect-Protocol-Version", "1") ∷ []
      ++ (header_if c.service_key "X-Service-Role-Key"
          ++ (header_if c.anon_key "X-Anon-Key" ++ bearer_if (current_token c stored)));
  credentials = true;
  body = some payload;
}

unfoldable pub do_request : Client → String → Json → Io Json
unfolding request_of fetch finish
do_request c path payload = do
  stored ← gets (λ w. w.local)
  response ← fetch (request_of c stored path payload)
  finish path response

unfoldable pub init : Client → Io ℤ
unfolding do_request
init c = do do_request c "/dbmux.v1.Registry/ListProviders" (object []); pure c.capabilities_mask

unfoldable pub has_capability : Client → ℕ → Bool
has_capability c bit = has_bit c.capabilities_mask bit

-- `{ provider_id, query, params }`; the identifier may be any value that a stored user holds.
abbrev pub query_payload : Json → String → List String → Json
query_payload provider_id sql params =
    object
      (("provider_id", provider_id) ∷ ("query", str sql) ∷ ("params", array (map str params)) ∷ [])

unfoldable pub postgres_query : Client → Json → String → Option (List String) → Io Json
unfolding do_request
postgres_query c provider_id sql params =
    do_request c "/dbmux.v1.Postgres/Query" (query_payload provider_id sql (get_or params []))

unfoldable pub mysql_query : Client → Json → String → Option (List String) → Io Json
unfolding do_request
mysql_query c provider_id sql params =
    do_request c "/dbmux.v1.MySQL/Query" (query_payload provider_id sql (get_or params []))

unfoldable pub sqlite_query : Client → Json → String → Option (List String) → Io Json
unfolding do_request
sqlite_query c provider_id sql params =
    do_request c "/dbmux.v1.SQLite/Query" (query_payload provider_id sql (get_or params []))

unfoldable pub redis_get : Client → String → Io Json
unfolding do_request
redis_get c key = do_request c "/dbmux.v1.KV/Get" (object (("key", str key) ∷ []))

unfoldable pub mongo_find : Client → String → String → String → Option ℕ → Io Json
unfolding do_request
mongo_find c db_name collection filter_json limit = do_request c "/dbmux.v1.Mongo/DocFind" (
    object (
      ("db_name", str db_name)
      ∷ ("collection", str collection)
      ∷ ("filter_json", str filter_json)
      ∷ ("limit", num (get_or limit 100))
      ∷ []))

unfoldable pub vector_search : Client → String → List ℕ → Option ℕ → Io Json
unfolding do_request
vector_search c collection vector limit = do_request c "/dbmux.v1.Vector/VectorSearch" (
    object (
      ("collection", str collection)
      ∷ ("vector", array (map num vector))
      ∷ ("limit", num (get_or limit 10))
      ∷ []))
