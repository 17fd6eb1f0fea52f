-- ===== src/Pages/Dashboard/Outcomes.antt =====
-- How the handlers of the dashboard end, and where they send the token.
use arcops.Prelude.{
  ℕ, String, ◌≡◌, refl, sym, subst, not, ◌||◌, true, false, Option, none, some, [], ◌∷◌, ◌++◌, ◌≤◌,
  All, arith, ltb, if◌then◌else◌,
}
use arcops.Js.Text.{template, starts_with}
use arcops.Js.Text.Slash.{drop_last_slash-append}
use arcops.Js.Json.{Json}
use arcops.Js.Exec.{Result, ok, err, handle, continue}
use arcops.Prelude.Steps.{Reaches, Reaches-keeps}
use arcops.Js.World.{World, Reply}
use arcops.Js.World.WebStorage as Stored
use arcops.Js.World.Object.{Object}
use arcops.Buckstream.{get_buck_stream_client, new_client, upload, list, delete}
use arcops.Buckstream.Token.{
  carries_token, KeepsToken, upload-KeepsToken, list-KeepsToken, delete-KeepsToken,
}
use arcops.Buckstream.Demo.{Chosen}
use arcops.Pages.Dashboard.{
  Points, max_from, Storage, show_objects, show_listed, set_assets, fetch_assets, type_of,
  handle_file_upload, handle_delete,
}

module _ (gateway : String) where
  -- The requests that carry a token go to URLs that begin with the gateway's and `/api/storage`.
  abbrev pub IsGuarded : World → Type 0
  IsGuarded w =
      All
        (λ r.
          (not (carries_token r) || starts_with r.url (template (gateway ∷ "/api/storage" ∷ [])))
          ≡ true)
        w.sent

  broker_url-storage :
      (s : Stored.Storage)
      → (get_buck_stream_client gateway s).broker_url ≡ template (gateway ∷ "/api/storage" ∷ [])
  unfolding get_buck_stream_client new_client
  broker_url-storage s = drop_last_slash-append gateway

  guarded :
      (s : Stored.Storage) (w : World)
      → IsGuarded w
      → KeepsToken (get_buck_stream_client gateway s) w
  guarded s w h =
      subst (λ u. All (λ r. (not (carries_token r) || starts_with r.url u) ≡ true) w.sent)
        (sym (broker_url-storage s)) h

  unguarded :
      (s : Stored.Storage) (w : World)
      → KeepsToken (get_buck_stream_client gateway s) w
      → IsGuarded w
  unguarded s w h =
      subst (λ u. All (λ r. (not (carries_token r) || starts_with r.url u) ≡ true) w.sent)
        (broker_url-storage s) h

  list-IsGuarded :
      (s : Stored.Storage) (w : World)
      → IsGuarded w
      → IsGuarded (list (get_buck_stream_client gateway s) w).1
  list-IsGuarded s w h =
      unguarded s (list (get_buck_stream_client gateway s) w).1
        (list-KeepsToken (get_buck_stream_client gateway s) w (guarded s w h))

  upload-IsGuarded :
      (s : Stored.Storage) (f : Chosen) (w : World)
      → IsGuarded w
      → IsGuarded (upload (get_buck_stream_client gateway s) f.file f.name (type_of gateway f) w).1
  upload-IsGuarded s f w h =
      unguarded s (upload (get_buck_stream_client gateway s) f.file f.name (type_of gateway f) w).1
        (upload-KeepsToken (get_buck_stream_client gateway s) f.file f.name (type_of gateway f) w
          (guarded s w h))

  delete-IsGuarded :
      (s : Stored.Storage) (key : String) (w : World)
      → IsGuarded w
      → IsGuarded (delete (get_buck_stream_client gateway s) key w).1
  delete-IsGuarded s key w h =
      unguarded s (delete (get_buck_stream_client gateway s) key w).1
        (delete-KeepsToken (get_buck_stream_client gateway s) key w (guarded s w h))

  show_objects-world :
      (v : Json) (o : Object Storage) → (show_objects gateway v o).1.world ≡ o.world
  unfolding show_objects
  show_objects-world v o = grind arith

  show_listed-world : (v : Json) (o : Object Storage) → (show_listed gateway v o).1.world ≡ o.world
  unfolding show_listed
  show_listed-world v o = grind (arith, show_objects-world)

  -- What follows the request for the list, with what that came to.
  abbrev listed : Result Json → Object Storage → Result (Unit {0}) × Object Storage
  listed r o = handle (λ _. set_assets []) (continue (show_listed gateway) (r, o))

  listed-world :
      (r : Result Json) (o : Object Storage)
      → ((listed r o).0 ≡ ok tt) × ((listed r o).1.world ≡ o.world)
  listed-world (ok v) o = ground (arith, show_listed-world v o)
  listed-world (err e) o = (refl, refl)

  abbrev asked : Object Storage → Result Json × World
  asked o = list (get_buck_stream_client gateway o.world.local) o.world

  fetch_assets-IsGuarded :
      (o : Object Storage)
      → IsGuarded o.world
      → ((fetch_assets gateway o).0 ≡ ok tt) × IsGuarded (fetch_assets gateway o).1.world
  unfolding fetch_assets
  fetch_assets-IsGuarded o h =
      let after = listed-world (asked o).0 (record o { world = (asked o).1 }) in
      (after.0, rw (after.1) (list-IsGuarded o.world.local o.world h))

  handle_file_upload-IsGuarded :
      (f : Chosen) (o : Object Storage)
      → IsGuarded o.world
      → ((handle_file_upload gateway f o).0 ≡ ok tt)
        × (((handle_file_upload gateway f o).1.this.uploading ≡ false)
            × IsGuarded (handle_file_upload gateway f o).1.world)
  unfolding handle_file_upload
  handle_file_upload-IsGuarded f o h =
      grind (arith, h, upload-IsGuarded o.world.local f o.world h, fetch_assets-IsGuarded)

  handle_delete-IsGuarded :
      (key : String) (o : Object Storage)
      → IsGuarded o.world
      → ((handle_delete gateway key o).0 ≡ ok tt) × IsGuarded (handle_delete gateway key o).1.world
  unfolding handle_delete
  handle_delete-IsGuarded key o h =
      grind (arith, h, delete-IsGuarded o.world.local key o.world h, fetch_assets-IsGuarded)

  -- What may happen to the panel: its handlers, one after the other, another session in localStorage, and
  -- replies of the network.
  pub data Step : Object Storage → Object Storage → Type 0 where
    refreshes : {o : Object Storage} → Step o (fetch_assets gateway o).1
    uploads : {o : Object Storage} (f : Chosen) → Step o (handle_file_upload gateway f o).1
    deletes : {o : Object Storage} (key : String) → Step o (handle_delete gateway key o).1
    signs :
        {o : Object Storage} (s : Stored.Storage)
        → Step o (record o { world = record o.world { local = s } })
    arrives :
        {o : Object Storage} (reply : Reply)
        → Step o (record o { world = record o.world { replies = o.world.replies ++ reply ∷ [] } })

  Step-IsGuarded : (o q : Object Storage) → Step o q → IsGuarded o.world → IsGuarded q.world
  Step-IsGuarded o q refreshes h = (fetch_assets-IsGuarded o h).1
  Step-IsGuarded o q (uploads f) h = (handle_file_upload-IsGuarded f o h).1.1
  Step-IsGuarded o q (deletes key) h = (handle_delete-IsGuarded key o h).1
  Step-IsGuarded o q (signs s) h = h
  Step-IsGuarded o q (arrives reply) h = h

  -- Whatever is done on the dashboard's panel of files, whoever signs in between, and whatever the
  -- storage answers: if the requests so far that carried a token went to URLs that begin with the
  -- gateway's and /api/storage, so did all requests at the end.
  pub Reaches-IsGuarded :
      {o q : Object Storage} → Reaches Step o q → IsGuarded o.world → IsGuarded q.world
  Reaches-IsGuarded run h = Reaches-keeps Step (λ o. IsGuarded o.world) Step-IsGuarded run h

max_from-none : (ps : Points) → max_from none ps ≡ none
unfolding max_from
max_from-none [] = refl
max_from-none ((t, v) ∷ ps) = max_from-none ps

-- A point whose value is a number up to a bound.
abbrev IsUpTo : ℕ → Option ℕ → Type 0
IsUpTo m none = true ≡ false
IsUpTo m (some n) = n ≤ m

abbrev pub AreUpTo : ℕ → Points → Type 0
AreUpTo m ps = All (λ p. IsUpTo m p.1) ps

-- The largest value is at least the first one and that of every point behind it.
max_from-IsUpTo : (a m : ℕ) (ps : Points) → max_from (some a) ps ≡ some m → (a ≤ m) × AreUpTo m ps
unfolding max_from
max_from-IsUpTo a m [] h = ground (arith, h)
max_from-IsUpTo a m ((t, none) ∷ ps) h = ground (arith, h, max_from-none ps)
max_from-IsUpTo a m ((t, some n) ∷ ps) h =
    ground (arith, h, max_from-IsUpTo (if ltb a n then n else a) m ps h)
