-- ===== src/Buckstream/Tests.antt =====
-- The client and the demo on concrete inputs.
use arcops.Prelude.{◌≡◌, refl, false, none, some, [], ◌∷◌}
use arcops.Prelude.Steps.{Reaches, here, next}
use arcops.Js.Text.{starts_with}
use arcops.Js.Json.{Json, str, object, get}
use arcops.Js.Exec.{ok}
use arcops.Js.World.{World, Response, answer, fetch, read_json}
use arcops.Js.World.Object.{Object}
use arcops.Js.World.Sample.{world, reply_json, reply_text}
use arcops.Buckstream.{
  Client, File, new_client, upload, upload_sized, follow_intent, put_file, delete,
}
use arcops.Buckstream.Token.{Step, uploads, deletes, KeepsToken, Reaches-KeepsToken}
use arcops.Buckstream.Demo.{App, Chosen, first_app, choose_file, type_name, handle_upload}
use arcops.Buckstream.Demo.Outcomes
use arcops.Buckstream.Demo.Outcomes.{IsIdle, Reaches-IsIdle}

abbrev client : Client
client = record { broker_url = "http://localhost:8080"; auth_token = some "secret" }

client_test : new_client "http://localhost:8080/" (some "secret") ≡ client
unfolding new_client
client_test = refl

abbrev photo : File
photo = record { size = some 3; byte_length = none; buffer_length = none; contents = "abc" }

abbrev intent : Json
intent = object (("action", str "direct") ∷ ("upload_url", str "https://bucket.example/put") ∷ [])

abbrev intent_reply : Response
intent_reply = reply_json 200 [] intent

abbrev put_reply : Response
put_reply = reply_text 200 ""

abbrev refusal : Response
refusal = reply_text 413 "too large"

abbrev start : World
start = world [] (answer intent_reply ∷ answer put_reply ∷ [])

abbrev refusing : World
refusing = world [] (answer refusal ∷ [])

abbrev uploaded : World
uploaded = (upload client photo "a.png" "image/png" start).1

-- An upload to the bucket, and a deletion.
steps : Reaches (Step client) start (delete client "a.png" uploaded).1
steps = next (next here (uploads photo "a.png" "image/png")) (deletes "a.png")

Reaches-KeepsToken_example : KeepsToken client (delete client "a.png" uploaded).1
Reaches-KeepsToken_example = Reaches-KeepsToken client steps tt

unprefixed : starts_with "a.png" "uploads/" ≡ false
unfolding starts_with
unprefixed = refl

abbrev chosen : Chosen
chosen = record { name = "a.png"; content_type = "image/png"; file = photo }

abbrev opened : Object App
opened = record { this = first_app; world = start }

abbrev picked : Object App
picked = record { this = choose_file (some chosen) first_app; world = start }

abbrev named : Object App
named = record picked { this = type_name "b.png" picked.this }

clicks : Reaches (Outcomes.Step client) opened (handle_upload client named).1
clicks =
    next (next (next here (Outcomes.chooses (some chosen))) (Outcomes.names "b.png"))
      Outcomes.uploads

first_app-IsIdle : IsIdle client first_app
unfolding first_app
first_app-IsIdle = (refl, (refl, refl))

Reaches-IsIdle_example : IsIdle client (handle_upload client named).1.this
Reaches-IsIdle_example = Reaches-IsIdle client clicks first_app-IsIdle

is_picked : picked.this.selected_file ≡ some chosen
unfolding choose_file
is_picked = refl

goes_well :
    (upload client photo picked.this.uploaded_key "image/png" start).0
    ≡ ok (record { status = "success"; key = "a.png"; action = str "direct" })
unfolding choose_file upload upload_sized follow_intent put_file fetch read_json get
goes_well = refl
