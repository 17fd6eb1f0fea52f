-- ===== src/Buckstream/Protocol.antt =====
-- The two steps of an upload.
use arcops.Prelude.{
  ℕ, String, ◌≡◌, Bool, false, Option, none, some, List, [], ◌∷◌, arith, ◌==◌, if◌then◌else◌,
}
use arcops.Js.Text.{template}
use arcops.Js.Exec.{ok}
use arcops.Js.Json.{Json, num, str, object, to_string}
use arcops.Js.World.{World, Request, Response, fetch, read_json}
use arcops.Buckstream.{
  Client, File, Uploaded, size_of, intent_request, put_file, follow_intent, upload_sized, upload,
}

-- The requests of the protocol, written out.
abbrev pub bearer : Option String → List (String × String)
bearer none = []
bearer (some token) =
    if token == "" then [] else ("Authorization", template ("Bearer " ∷ token ∷ [])) ∷ []

abbrev pub first_request : Client → String → String → ℕ → Request
first_request c name content_type size = record {
  url = template (c.broker_url ∷ "/api/upload-intent" ∷ []);
  method = "POST";
  headers = ("Content-Type", "application/json") ∷ bearer c.auth_token;
  credentials = false;
  body = some (
      object
        (("filename", str name) ∷ ("content_type", str content_type) ∷ ("size", num size) ∷ []));
}

abbrev pub names_proxy : Json → Bool
names_proxy (str action) = action == "proxy"
names_proxy _ = false

abbrev pub second_request : Client → File → String → Json → Json → Request
second_request c file content_type action upload_url =
    if names_proxy action
    then record {
      url = template (c.broker_url ∷ to_string upload_url ∷ []);
      method = "PUT";
      headers = ("Content-Type", content_type) ∷ bearer c.auth_token;
      credentials = false;
      body = some (str file.contents);
    }
    else record {
      url = to_string upload_url;
      method = "PUT";
      headers = ("Content-Type", content_type) ∷ [];
      credentials = false;
      body = some (str file.contents);
    }

module _ (c : Client) (f : File) (n t : String) where
  abbrev asked : ℕ → World → World
  asked size w = (fetch (intent_request c n t size) w).1

  put_file-key :
      (action upload_url : Json) (w : World) (u : Uploaded)
      → (put_file c f n t action upload_url w).0 ≡ ok u
      → u.key ≡ n
  unfolding put_file fetch
  put_file-key action upload_url w u h = ground (arith, h)

  follow_intent-key :
      (p : Response) (w : World) (u : Uploaded) → (follow_intent c f n t p w).0 ≡ ok u → u.key ≡ n
  unfolding follow_intent read_json
  follow_intent-key p w u h = grind (arith, h, put_file-key)

  sized-key :
      (size : Option ℕ) (w : World) (u : Uploaded)
      → (upload_sized c f n t size w).0 ≡ ok u
      → u.key ≡ n
  unfolding upload_sized
  sized-key none w u h = ground (arith, h)
  sized-key (some size) w u h = grind (arith, h, follow_intent-key)

  -- The key that an upload returns is the name that it was given.
  pub upload-key : (w : World) (u : Uploaded) → (upload c f n t w).0 ≡ ok u → u.key ≡ n
  unfolding upload
  upload-key w u h = sized-key (size_of f) w u h
