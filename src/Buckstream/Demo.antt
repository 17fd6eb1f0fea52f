-- ===== src/Buckstream/Demo.antt =====
-- The demo page, buckstream/demo/src/App.tsx: choosing, uploading, fetching, listing and deleting files.
pub mod Outcomes
use arcops.Prelude.{
  ℕ, ◌+◌, String, Bool, true, false, List, [], ◌∷◌, ◌++◌, Option, none, some, ◌==◌, if◌then◌else◌,
}
use arcops.Js.Text.{template, split}
use arcops.Js.Json.{Json, str, array, or_else}
use arcops.Js.Exec.{Error, pure, catch, finally, prop, ◌>>=◌, ◌>>◌}
use arcops.Js.World.{Response, alert}
use arcops.Js.World.WebStorage.{get_item}
use arcops.Js.World.Session.{text_or}
use arcops.Js.World.Object.{Object, Method, io, read, update}
use arcops.Buckstream.{Client, File, Uploaded, upload, download, list, delete}

-- A file that the user chose.
pub record Chosen : Type 0 where
  pub name : String
  pub content_type : String
  pub file : File

-- The state, with the files saved to disk, and the object URLs that were made and not revoked.
pub record App : Type 0 where
  pub selected_file : Option Chosen
  pub upload_loading : Bool
  pub upload_status : String
  pub upload_error : String
  pub upload_method : Json
  pub uploaded_key : String
  pub download_key : String
  pub download_loading : Bool
  pub download_status : String
  pub download_error : String
  pub download_preview_url : String
  pub download_mime_type : String
  pub files : Json
  pub list_loading : Bool
  pub list_error : String
  pub saved : List (String × String)
  pub live_urls : ℕ

unfoldable pub first_app : App
first_app = record {
  selected_file = none;
  upload_loading = false;
  upload_status = "";
  upload_error = "";
  upload_method = str "";
  uploaded_key = "";
  download_key = "";
  download_loading = false;
  download_status = "";
  download_error = "";
  download_preview_url = "";
  download_mime_type = "";
  files = array [];
  list_loading = false;
  list_error = "";
  saved = [];
  live_urls = 0;
}

-- `handleDropUpload` and `handleFileChange`, with the first of the files, if there is any
unfoldable pub choose_file : Option Chosen → App → App
choose_file none p = p
choose_file (some f) p = record p { selected_file = some f; uploaded_key = f.name }

-- The fields of the destination name and of the key to fetch
abbrev pub type_name : String → App → App
type_name name p = record p { uploaded_key = name }

abbrev pub type_key : String → App → App
type_key key p = record p { download_key = key }

abbrev pub message_or : Error → String → String
message_or e default = if e.message == "" then default else e.message

module _ (client : Client) where
  -- `handleListFiles`
  unfoldable pub list_files : Method App Unit
  list_files = do
    update λ p. record p { list_loading = true; list_error = "" }
    finally
        (catch
          (do
            result ← io (list client)
            objects ← prop result "objects"
            update λ p. record p { files = or_else objects (array []) })
          (λ e.
            update λ p. record p { list_error = message_or e "Failed to list uploaded files." }))
        (λ o. record o { this = record o.this { list_loading = false } })

  abbrev upload_begun : App → App
  upload_begun p = record p {
    upload_loading = true;
    upload_error = "";
    upload_status = "Requesting upload intent from broker...";
    upload_method = str "";
  }

  abbrev upload_done : Uploaded → App → App
  upload_done result p = record p {
    upload_method = result.action;
    upload_status = template ("File uploaded successfully! Key: " ∷ result.key ∷ []);
    download_key = result.key;
  }

  unfoldable pub upload_chosen : Option Chosen → String → Method App Unit
  upload_chosen none key = pure tt
  upload_chosen (some f) key = do
    update upload_begun
    finally
        (catch
          (do
            result ← io (
                upload client f.file key
                  (if f.content_type == "" then "application/octet-stream" else f.content_type))
            update (upload_done result)
            list_files)
          (λ e. update λ p. record p {
            upload_error = message_or e "An error occurred during upload.";
            upload_status = "";
          }))
        (λ o. record o { this = record o.this { upload_loading = false } })

  -- `handleUpload`
  unfoldable pub handle_upload : Method App Unit
  handle_upload = do panel ← read (λ p. p); upload_chosen panel.selected_file panel.uploaded_key

  abbrev download_begun : App → App
  download_begun p = record p {
    download_loading = true;
    download_error = "";
    download_preview_url = "";
    download_status = "Fetching file stream from broker...";
  }

  abbrev download_done : (String → String) → Response → App → App
  download_done object_url response p = record p {
    download_mime_type = text_or (get_item response.headers "Content-Type") "";
    download_preview_url = object_url response.text;
    live_urls = p.live_urls + 1;
    download_status = "File retrieved successfully!";
  }

  unfoldable pub download_target : (String → String) → String → Method App Unit
  unfolding get_item
  download_target object_url key = if key == "" then pure tt else (do
    update download_begun
    finally
        (catch (do response ← io (download client key); update (download_done object_url response))
          (λ e. update λ p. record p {
            download_error = message_or e "An error occurred during retrieval.";
            download_status = "";
          }))
        (λ o. record o { this = record o.this { download_loading = false } }))

  -- `handleDownload`, where `object_url` is what the browser makes of the contents
  unfoldable pub handle_download : (String → String) → Option String → Method App Unit
  handle_download object_url key_override = do
    typed ← read (λ p. p.download_key)
    download_target object_url (text_or key_override typed)

  -- `key.split("/").pop() || "file"`
  abbrev last_or : String → List String → String
  last_or s [] = s
  last_or s (t ∷ ts) = last_or t ts

  unfoldable pub disk_name : String → String
  unfolding split
  disk_name key = text_or (some (last_or "" (split b'/' key))) "file"

  -- `handleDownloadToDisk`; the object URL is revoked again.
  unfoldable pub download_to_disk : String → Method App Unit
  unfolding disk_name
  download_to_disk key =
      catch
        (do
          response ← io (download client key)
          update λ p. record p { saved = p.saved ++ (disk_name key, response.text) ∷ [] })
        (λ e. io (alert (message_or e "Failed to download file.")))

  -- `handleDeleteFile`, with the answer of the user
  unfoldable pub delete_file : Bool → String → Method App Unit
  delete_file confirmed key =
      if confirmed
      then catch (do result ← io (delete client key); list_files)
          (λ e. io (alert (message_or e "Failed to delete file.")))
      else pure tt
