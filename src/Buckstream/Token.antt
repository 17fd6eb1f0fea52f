-- ===== src/Buckstream/Token.antt =====
-- Where the client sends its token.
use arcops.Prelude.{
  ℕ, String, ◌≡◌, Bool, true, not, ◌||◌, Option, none, some, List, [], ◌∷◌, ◌++◌, any, All,
  All-append, Bool-cases, inl, inr, arith, ◌==◌,
}
use arcops.Prelude.Steps.{Reaches, Reaches-keeps}
use arcops.Js.Text.Prefix.{starts_with-append}
use arcops.Js.Text.{template, starts_with}
use arcops.Js.Exec.{Result, ok, err, continue}
use arcops.Js.Json.{Json, to_string}
use arcops.Js.World.{World, Request, Response, Reply, fetch, read_json}
use arcops.Buckstream.{
  Client, File, bare_request, delete_path, target_key, size_of, is_proxy, intent_request,
  put_request, put_file, follow_intent, upload_sized, upload, download, list, delete,
}

abbrev pub carries_token : Request → Bool
carries_token r = any (λ h. h.0 == "Authorization") r.headers

module _ (c : Client) where
  -- A request that carries a token goes to a URL that begins with the broker's.
  abbrev pub stays : Request → Bool
  stays r = not (carries_token r) || starts_with r.url c.broker_url

  abbrev pub KeepsToken : World → Type 0
  KeepsToken w = All (λ r. stays r ≡ true) w.sent

  -- What may happen: a call of the client, the second step of an upload at any time after its first,
  -- with whatever response, and a reply of the network.
  pub data Step : World → World → Type 0 where
    uploads : {w : World} (f : File) (n t : String) → Step w (upload c f n t w).1
    follows :
        {w : World} (f : File) (n t : String) (r : Response) → Step w (follow_intent c f n t r w).1
    downloads : {w : World} (key : String) → Step w (download c key w).1
    lists : {w : World} → Step w (list c w).1
    deletes : {w : World} (key : String) → Step w (delete c key w).1
    arrives : {w : World} (reply : Reply) → Step w (record w { replies = w.replies ++ reply ∷ [] })

  fetch-KeepsToken :
      (r : Request) (w : World) → stays r ≡ true → KeepsToken w → KeepsToken (fetch r w).1
  unfolding fetch
  fetch-KeepsToken r w s h = All-append (λ r. stays r ≡ true) w.sent (r ∷ []) h (s, tt)

  under_broker : (ps : List String) → starts_with (template (c.broker_url ∷ ps)) c.broker_url ≡ true
  under_broker ps = starts_with-append c.broker_url (template ps)

  intent-stays : (n t : String) (size : ℕ) → stays (intent_request c n t size) ≡ true
  intent-stays n t size = ground (arith, under_broker ("/api/upload-intent" ∷ []))

  put-stays :
      (f : File) (t : String) (action upload_url : Json)
      → stays (put_request c f t action upload_url) ≡ true
  put-stays f t action upload_url = elim (Bool-cases (is_proxy action)) [
    | inl e ↦ ground (arith, e, under_broker (to_string upload_url ∷ []))
    | inr e ↦ ground (arith, e)
  ]

  bare-stays : (method path : String) → stays (bare_request c method path) ≡ true
  bare-stays method path = ground (arith, under_broker (path ∷ []))

  put_file-KeepsToken :
      (f : File) (n t : String) (action upload_url : Json) (w : World)
      → KeepsToken w
      → KeepsToken (put_file c f n t action upload_url w).1
  unfolding put_file
  put_file-KeepsToken f n t action upload_url w h = ground (
    arith,
    fetch-KeepsToken (put_request c f t action upload_url) w (put-stays f t action upload_url) h,
  )

  follow_intent-KeepsToken :
      (f : File) (n t : String) (r : Response) (w : World)
      → KeepsToken w
      → KeepsToken (follow_intent c f n t r w).1
  unfolding follow_intent read_json
  follow_intent-KeepsToken f n t r w h = grind (arith, put_file-KeepsToken f n t, h)

  after_intent :
      (f : File) (n t : String) (r : Result Response) (w : World)
      → KeepsToken w
      → KeepsToken (continue (follow_intent c f n t) (r, w)).1
  after_intent f n t (ok r) w h = follow_intent-KeepsToken f n t r w h
  after_intent f n t (err e) w h = h

  abbrev ask : String → String → World → ℕ → Result Response × World
  ask n t w size = fetch (intent_request c n t size) w

  sized-KeepsToken :
      (f : File) (n t : String) (size : Option ℕ) (w : World)
      → KeepsToken w
      → KeepsToken (upload_sized c f n t size w).1
  unfolding upload_sized
  sized-KeepsToken f n t none w h = h
  sized-KeepsToken f n t (some size) w h =
      after_intent f n t (ask n t w size).0 (ask n t w size).1
        (fetch-KeepsToken (intent_request c n t size) w (intent-stays n t size) h)

  pub upload-KeepsToken :
      (f : File) (n t : String) (w : World) → KeepsToken w → KeepsToken (upload c f n t w).1
  unfolding upload
  upload-KeepsToken f n t w h = sized-KeepsToken f n t (size_of f) w h

  bare-KeepsToken :
      (method path : String) (w : World)
      → KeepsToken w
      → KeepsToken (fetch (bare_request c method path) w).1
  bare-KeepsToken method path w h =
      fetch-KeepsToken (bare_request c method path) w (bare-stays method path) h

  download-KeepsToken : (key : String) (w : World) → KeepsToken w → KeepsToken (download c key w).1
  unfolding download
  download-KeepsToken key w h =
      ground (arith, bare-KeepsToken "GET" (template ("/api/download/" ∷ key ∷ [])) w h)

  pub list-KeepsToken : (w : World) → KeepsToken w → KeepsToken (list c w).1
  unfolding list read_json
  list-KeepsToken w h = ground (arith, bare-KeepsToken "GET" "/api/list" w h)

  pub delete-KeepsToken : (key : String) (w : World) → KeepsToken w → KeepsToken (delete c key w).1
  unfolding delete read_json
  delete-KeepsToken key w h =
      ground (arith, bare-KeepsToken "DELETE" (delete_path (target_key key)) w h)

  Step-KeepsToken : (v w : World) → Step v w → KeepsToken v → KeepsToken w
  Step-KeepsToken v w (uploads f n t) h = upload-KeepsToken f n t v h
  Step-KeepsToken v w (follows f n t r) h = follow_intent-KeepsToken f n t r v h
  Step-KeepsToken v w (downloads key) h = download-KeepsToken key v h
  Step-KeepsToken v w lists h = list-KeepsToken v h
  Step-KeepsToken v w (deletes key) h = delete-KeepsToken key v h
  Step-KeepsToken v w (arrives reply) h = h

  -- Whatever calls are made, however the steps of uploads interleave and whatever the network and the
  -- broker answer: if the requests so far that carried a token went to URLs that begin with the
  -- broker's, so did all requests at the end.
  pub Reaches-KeepsToken : {v w : World} → Reaches Step v w → KeepsToken v → KeepsToken w
  Reaches-KeepsToken run h = Reaches-keeps Step KeepsToken Step-KeepsToken run h
