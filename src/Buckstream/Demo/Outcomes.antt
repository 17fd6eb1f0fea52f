-- ===== src/Buckstream/Demo/Outcomes.antt =====
-- How the handlers of the demo end.
use arcops.Prelude.{String, ◌≡◌, refl, Bool, false, Option, none, some, ◌==◌, arith, if◌then◌else◌}
use arcops.Prelude.Steps.{Reaches, Reaches-keeps}
use arcops.Js.Exec.{ok}
use arcops.Js.World.Object.{Object}
use arcops.Buckstream.{Client, Uploaded, upload}
use arcops.Js.World.Session.{text_or}
use arcops.Buckstream.Protocol.{upload-key}
use arcops.Buckstream.Demo.{
  Chosen, App, choose_file, type_name, type_key, list_files, upload_chosen, handle_upload,
  download_target, handle_download, download_to_disk, delete_file,
}

module _ (client : Client) where
  -- Nothing is loading.
  abbrev pub IsIdle : App → Type 0
  IsIdle p = (p.upload_loading ≡ false) × ((p.download_loading ≡ false) × (p.list_loading ≡ false))

  -- What refreshing the list does not touch.
  abbrev Keeps : App → App → Type 0
  Keeps p q =
      (q.upload_loading ≡ p.upload_loading)
      × ((q.download_loading ≡ p.download_loading)
          × ((q.download_key ≡ p.download_key) × (q.upload_error ≡ p.upload_error)))

  list_files-Keeps :
      (o : Object App)
      → ((list_files client o).0 ≡ ok tt)
        × (((list_files client o).1.this.list_loading ≡ false)
            × Keeps o.this (list_files client o).1.this)
  unfolding list_files
  list_files-Keeps o = ground arith

  upload_chosen-IsIdle :
      (f : Option Chosen) (key : String) (o : Object App)
      → IsIdle o.this
      → ((upload_chosen client f key o).0 ≡ ok tt) × IsIdle (upload_chosen client f key o).1.this
  unfolding upload_chosen
  upload_chosen-IsIdle none key o h = (refl, h)
  upload_chosen-IsIdle (some f) key o h = grind (arith, h, list_files-Keeps)

  download_target-IsIdle :
      (object_url : String → String) (key : String) (o : Object App)
      → IsIdle o.this
      → ((download_target client object_url key o).0 ≡ ok tt)
        × IsIdle (download_target client object_url key o).1.this
  unfolding download_target
  download_target-IsIdle object_url key o h = ground (arith, h)

  download_to_disk-IsIdle :
      (key : String) (o : Object App)
      → IsIdle o.this
      → ((download_to_disk client key o).0 ≡ ok tt) × IsIdle (download_to_disk client key o).1.this
  unfolding download_to_disk
  download_to_disk-IsIdle key o h = ground (arith, h)

  delete_file-IsIdle :
      (b : Bool) (key : String) (o : Object App)
      → IsIdle o.this
      → ((delete_file client b key o).0 ≡ ok tt) × IsIdle (delete_file client b key o).1.this
  unfolding delete_file
  delete_file-IsIdle b key o h = grind (arith, h, list_files-Keeps)

  -- What the user may do, one thing after the other: choose a file, type the name under which it is
  -- stored, upload it, type a key, fetch the key typed or one that is given, save a key to disk, refresh the list, delete a key or not.
  pub data Step : Object App → Object App → Type 0 where
    chooses :
        {o : Object App} (f : Option Chosen) → Step o (record o { this = choose_file f o.this })
    names : {o : Object App} (name : String) → Step o (record o { this = type_name name o.this })
    keys : {o : Object App} (key : String) → Step o (record o { this = type_key key o.this })
    uploads : {o : Object App} → Step o (handle_upload client o).1
    fetches :
        {o : Object App} (object_url : String → String) (key : Option String)
        → Step o (handle_download client object_url key o).1
    saves : {o : Object App} (key : String) → Step o (download_to_disk client key o).1
    refreshes : {o : Object App} → Step o (list_files client o).1
    deletes : {o : Object App} (b : Bool) (key : String) → Step o (delete_file client b key o).1

  choose_file-IsIdle : (f : Option Chosen) (p : App) → IsIdle p → IsIdle (choose_file f p)
  unfolding choose_file
  choose_file-IsIdle none p h = h
  choose_file-IsIdle (some f) p h = h

  Step-IsIdle : (o q : Object App) → Step o q → IsIdle o.this → IsIdle q.this
  unfolding handle_upload handle_download
  Step-IsIdle o q (chooses f) h = choose_file-IsIdle f o.this h
  Step-IsIdle o q (names name) h = h
  Step-IsIdle o q (keys key) h = h
  Step-IsIdle o q uploads h = (upload_chosen-IsIdle o.this.selected_file o.this.uploaded_key o h).1
  Step-IsIdle o q (fetches object_url key) h =
      (download_target-IsIdle object_url (text_or key o.this.download_key) o h).1
  Step-IsIdle o q (saves key) h = (download_to_disk-IsIdle key o h).1
  Step-IsIdle o q refreshes h = ground (arith, h, list_files-Keeps o)
  Step-IsIdle o q (deletes b key) h = (delete_file-IsIdle b key o h).1

  -- Whatever the user does, one thing after the other, and whatever the network and the broker do: if
  -- nothing was loading at the start, nothing is left loading at the end.
  pub Reaches-IsIdle : {o q : Object App} → Reaches Step o q → IsIdle o.this → IsIdle q.this
  Reaches-IsIdle run h = Reaches-keeps Step (λ o. IsIdle o.this) Step-IsIdle run h

  abbrev type_of : Chosen → String
  type_of f = if f.content_type == "" then "application/octet-stream" else f.content_type

  chosen-uploaded :
      (o : Object App) (f : Chosen) (key : String) (u : Uploaded)
      → (upload client f.file key (type_of f) o.world).0 ≡ ok u
      → ((upload_chosen client (some f) key o).1.this.download_key ≡ u.key)
        × ((upload_chosen client (some f) key o).1.this.upload_error ≡ "")
  unfolding upload_chosen
  chosen-uploaded o f key u g = grind (arith, g, list_files-Keeps)

  -- After an upload that went well the page shows no error of it and offers to fetch the key as it was typed, without
  -- the folder under which the broker stores it.
  handle_upload-download_key :
      (o : Object App) (f : Chosen) (u : Uploaded)
      → o.this.selected_file ≡ some f
      → (upload client f.file o.this.uploaded_key (type_of f) o.world).0 ≡ ok u
      → ((handle_upload client o).1.this.download_key ≡ o.this.uploaded_key)
        × ((handle_upload client o).1.this.upload_error ≡ "")
  unfolding handle_upload
  handle_upload-download_key o f u h g = rw (h) (
      ground (
        arith,
        chosen-uploaded o f o.this.uploaded_key u g,
        upload-key client f.file o.this.uploaded_key (type_of f) o.world u g,
      ))
