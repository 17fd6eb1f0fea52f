-- ===== src/Buckstream.antt =====
-- `BuckStreamClient`, buckstream/sdk/node/buckstream.js, and how the dashboard makes one,
-- web/src/lib/buckstream.ts.
pub mod Token
pub mod Protocol
pub mod Keys
pub mod Demo
pub mod Tests
use arcops.Prelude.{
  ℕ, String, Bool, false, Option, none, some, List, [], ◌∷◌, ◌++◌, ◌==◌, if◌then◌else◌,
}
use arcops.Js.Text.{template, starts_with, drop_last_slash}
use arcops.Js.Text.Uri.{encode_uri_component}
use arcops.Js.Json.{Json, str, num, object, to_string}
use arcops.Js.Exec.{Error, pure, throw, prop, plain_error, ◌>>=◌, ◌>>◌}
use arcops.Js.World.{World, Io, Storage, Request, Response, fetch, read_json, is_ok}
use arcops.Js.World.Session.{text_or, stored_token}
use arcops.Js.World.Session.Token.{clean_token}

pub record Client : Type 0 where
  pub broker_url : String
  pub auth_token : Option String

-- `constructor`
unfoldable pub new_client : String → Option String → Client
unfolding drop_last_slash
new_client broker_url auth_token = record {
  broker_url = drop_last_slash broker_url;
  auth_token = elim auth_token [ none ↦ none | some t ↦ if t == "" then none else some t ];
}

-- What is uploaded. The size is the first of the three that the value has: of a `Blob` or a `File`, of
-- an `ArrayBuffer`, or of a `Buffer`.
pub record File : Type 0 where
  pub size : Option ℕ
  pub byte_length : Option ℕ
  pub buffer_length : Option ℕ
  pub contents : String

abbrev or_size : Option ℕ → Option ℕ → Option ℕ
or_size none later = later
or_size (some n) later = some n

abbrev pub size_of : File → Option ℕ
size_of f = or_size f.size (or_size f.byte_length f.buffer_length)

abbrev unsupported : Error
unsupported = plain_error "Unsupported file format. Must be Blob, File, ArrayBuffer, or Buffer."

-- The `Authorization` header, for a client that has a token.
abbrev authorization_of : Option String → List (String × String)
authorization_of none = []
authorization_of (some t) =
    if t == "" then [] else ("Authorization", template ("Bearer " ∷ t ∷ [])) ∷ []

abbrev pub authorization : Client → List (String × String)
authorization c = authorization_of c.auth_token

-- What `Upload` returns.
pub record Uploaded : Type 0 where
  pub status : String
  pub key : String
  pub action : Json

abbrev pub intent_request : Client → String → String → ℕ → Request
intent_request c filename content_type size = record {
  url = template (c.broker_url ∷ "/api/upload-intent" ∷ []);
  method = "POST";
  headers = ("Content-Type", "application/json") ∷ authorization c;
  credentials = false;
  body = some (
      object (
        ("filename", str filename) ∷ ("content_type", str content_type) ∷ ("size", num size) ∷ []));
}

-- `action === "proxy"`
abbrev pub is_proxy : Json → Bool
is_proxy (str s) = s == "proxy"
is_proxy _ = false

-- A direct target gets no token, the proxy of the broker does.
abbrev pub put_request : Client → File → String → Json → Json → Request
put_request c file content_type action upload_url = record {
  url =
      if is_proxy action
      then template (c.broker_url ∷ to_string upload_url ∷ [])
      else to_string upload_url;
  method = "PUT";
  headers = ("Content-Type", content_type) ∷ (if is_proxy action then authorization c else []);
  credentials = false;
  body = some (str file.contents);
}

-- A response that is not ok throws its text behind a prefix.
abbrev pub refused : String → Response → Error
refused prefix r = plain_error (template (prefix ∷ r.text ∷ []))

-- The second step of `Upload`.
unfoldable pub put_file : Client → File → String → String → Json → Json → Io Uploaded
put_file c file filename content_type action upload_url = do
  response ← fetch (put_request c file content_type action upload_url)
  if is_ok response
      then pure (record { status = "success"; key = filename; action = action })
      else throw (refused "Upload failed: " response)

-- `Upload`, from the answer to the first step on.
unfoldable pub follow_intent : Client → File → String → String → Response → Io Uploaded
follow_intent c file filename content_type response =
    if is_ok response
    then (do
      intent ← read_json response
      action ← prop intent "action"
      upload_url ← prop intent "upload_url"
      put_file c file filename content_type action upload_url)
    else throw (refused "Failed to initialize upload intent: " response)

-- `Upload`, once the size is known.
unfoldable pub upload_sized : Client → File → String → String → Option ℕ → Io Uploaded
upload_sized c file filename content_type none = throw unsupported
upload_sized c file filename content_type (some size) = do
  response ← fetch (intent_request c filename content_type size)
  follow_intent c file filename content_type response

unfoldable pub upload : Client → File → String → String → Io Uploaded
unfolding upload_sized
upload c file filename content_type = upload_sized c file filename content_type (size_of file)

-- A request without a body.
abbrev pub bare_request : Client → String → String → Request
bare_request c method path = record {
  url = template (c.broker_url ∷ path ∷ []);
  method = method;
  headers = authorization c;
  credentials = false;
  body = none;
}

abbrev ok_or_throw : String → Response → Io Response
ok_or_throw prefix response =
    if is_ok response then pure response else throw (refused prefix response)

unfoldable pub download : Client → String → Io Response
download c key = do
  response ← fetch (bare_request c "GET" (template ("/api/download/" ∷ key ∷ [])))
  ok_or_throw "Download failed: " response

unfoldable pub list : Client → Io Json
list c = do
  response ← fetch (bare_request c "GET" "/api/list")
  response ← ok_or_throw "List failed: " response
  read_json response

-- The key with the folder of the uploads in front.
unfoldable pub target_key : String → String
unfolding starts_with
target_key key = if starts_with key "uploads/" then key else template ("uploads/" ∷ key ∷ [])

abbrev pub delete_path : String → String
delete_path target = template ("/api/delete?key=" ∷ encode_uri_component target ∷ [])

unfoldable pub delete : Client → String → Io Json
unfolding target_key
delete c key = do
  response ← fetch (bare_request c "DELETE" (delete_path (target_key key)))
  response ← ok_or_throw "Delete failed: " response
  read_json response

-- `getAuthToken` and `getBuckStreamClient` of the dashboard
abbrev pub get_auth_token : Storage → String
get_auth_token stored = clean_token (text_or (stored_token stored) "")

unfoldable pub get_buck_stream_client : String → Storage → Client
unfolding new_client stored_token clean_token
get_buck_stream_client gateway stored =
    new_client (template (gateway ∷ "/api/storage" ∷ [])) (some (get_auth_token stored))
