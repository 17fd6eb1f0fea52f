-- ===== src/Pages/Dashboard.antt =====
-- `ChartsBentoContent` and `BuckstreamBentoContent`, web/src/components/dashboard-bento.tsx: the charts of
-- the telemetry, and the stored files.
pub mod Names
pub mod Outcomes
pub mod Tests
use Prim.Native.Char.{Char, code}
use Prim.Native.String.{[], ◌∷◌}
use arcops.Prelude.{
  ℕ, String, Bool, true, false, Option, none, some, List, [], ◌∷◌, map, eqb, ltb, ◌==◌,
  if◌then◌else◌,
}
use arcops.Js.Text.{template, decimal, strip_prefix}
use arcops.Js.Json.{Json, str, array, or_else, is_array, array_of}
use arcops.Js.Exec.{pure, throw, gets, catch, finally, prop, type_error, ◌>>=◌, ◌>>◌}
use arcops.Js.World.{World}
use arcops.Js.World.Session.{is_text, stored_token}
use arcops.Js.World.Object.{Object, Method, io, read, update}
use arcops.Web.DbmuxSdk.{Client}
use arcops.Web.Tenant.{Decoder}
use arcops.Web.Dbmux.Tables.{Metrics, get_telemetry_metrics}
use arcops.Buckstream.{File, get_buck_stream_client, upload, list, delete}
use arcops.Buckstream.Demo.{Chosen}

abbrev pub Points : Type 0
Points = List (String × Option ℕ)

pub record Charts : Type 0 where
  pub throughput_data : Points
  pub latency_data : Points
  pub leases_data : Points

abbrev pub empty_charts : Charts
empty_charts = record { throughput_data = []; latency_data = []; leases_data = [] }

abbrev charts_of : Metrics → Charts
charts_of m = record {
  throughput_data = m.throughput;
  latency_data = m.latency;
  leases_data = m.leases;
}

-- `fetchTelemetry`
unfoldable pub fetch_telemetry : Decoder → Client → Method Charts Unit
unfolding stored_token
fetch_telemetry d client = do
  token ← io (gets (λ w. stored_token w.local))
  if is_text token
      then catch (do metrics ← io (get_telemetry_metrics d client); update (λ p. charts_of metrics))
          (λ _. update (λ p. empty_charts))
      else update (λ p. empty_charts)

-- A label of a value; none for a value that is not a natural number, whose text is not modelled.
abbrev label : String → Option ℕ → Option String
label unit none = none
label unit (some n) = some (template (decimal n ∷ unit ∷ []))

abbrev last_value : Option ℕ → Points → Option ℕ
last_value v [] = v
last_value v ((t, w) ∷ ps) = last_value w ps

-- `latestThroughput` and `latestLatency`, with their units
unfoldable pub latest : String → Points → Option String
latest unit [] = label unit (some 0)
latest unit ((t, v) ∷ ps) = label unit (last_value v ps)

abbrev larger : Option ℕ → Option ℕ → Option ℕ
larger (some m) (some n) = some (if ltb m n then n else m)
larger _ _ = none

-- `Math.max(...)` of the values behind a first one
unfoldable pub max_from : Option ℕ → Points → Option ℕ
max_from v [] = v
max_from v ((t, w) ∷ ps) = max_from (larger v w) ps

-- `maxLease`
unfoldable pub max_lease : Points → Option String
unfolding max_from
max_lease [] = label " leases" (some 0)
max_lease ((t, v) ∷ ps) = label " leases" (max_from v ps)

pub record AssetItem : Type 0 where
  pub name : String
  pub raw_key : String
  pub size : String
  pub time : String
  pub download_url : String

pub record Storage : Type 0 where
  pub assets : List AssetItem
  pub uploading : Bool
  pub uploaded_file_name : Option String

-- `[^/]+\/`: what follows the slash, if one or more other characters stand before it
unfoldable pub after_segment : Bool → String → Option String
after_segment seen [] = none
after_segment seen (c ∷ s) =
    let rest = after_segment true s in
    if eqb (code c) b'/' then (if seen then some s else none) else rest

abbrev owner_or : String → Option String → String
owner_or s none = s
owner_or s (some rest) = elim (after_segment false rest) [ none ↦ s | some r ↦ r ]

-- `s.replace(/^folder(owner[^/]+\/)?/, "")`
unfoldable pub without_folder : String → String → String → String
unfolding strip_prefix after_segment
without_folder folder owner s = elim (strip_prefix folder s) [
  | none ↦ s
  | some r ↦ owner_or r (strip_prefix owner r)
]

-- The name that a key is shown by.
unfoldable pub asset_name : String → String
unfolding without_folder
asset_name k = without_folder "sandbox/" "prj_" (without_folder "uploads/" "tenant_" k)

unfoldable pub asset_of : String → String → AssetItem
unfolding asset_name
asset_of gateway k = record {
  name = asset_name k;
  raw_key = k;
  size = "S3 Object";
  time = "Just now";
  download_url = template (gateway ∷ "/api/storage" ∷ "/api/download/" ∷ k ∷ []);
}

-- Keys that are not texts have no `replace`.
unfoldable pub keys_of : List Json → Option (List String)
keys_of [] = some []
keys_of (str k ∷ vs) = elim (keys_of vs) [ none ↦ none | some ks ↦ some (k ∷ ks) ]
keys_of (v ∷ vs) = none

abbrev pub set_assets : List AssetItem → Method Storage Unit
set_assets assets = update λ p. record p { assets = assets }

module _ (gateway : String) where
  show_keys : Option (List String) → Method Storage Unit
  unfolding asset_of
  show_keys none = throw type_error
  show_keys (some ks) = set_assets (map (asset_of gateway) ks)

  unfoldable pub show_objects : Json → Method Storage Unit
  unfolding keys_of show_keys
  show_objects objects =
      if is_array objects then show_keys (keys_of (array_of objects)) else set_assets []

  -- What is done with the answer.
  unfoldable pub show_listed : Json → Method Storage Unit
  unfolding show_objects
  show_listed res = do objects ← prop res "objects"; show_objects (or_else objects (array []))

  -- `fetchAssets`
  unfoldable pub fetch_assets : Method Storage Unit
  fetch_assets =
      catch
        (do
          stored ← io (gets (λ w. w.local))
          res ← io (list (get_buck_stream_client gateway stored))
          show_listed res)
        (λ _. set_assets [])

  abbrev pub type_of : Chosen → String
  type_of f = if f.content_type == "" then "application/octet-stream" else f.content_type

  -- `handleFileUpload`
  unfoldable pub handle_file_upload : Chosen → Method Storage Unit
  handle_file_upload f = do
    update λ p. record p { uploading = true; uploaded_file_name = some f.name }
    finally
        (catch
          (do
            stored ← io (gets (λ w. w.local))
            result ← io (upload (get_buck_stream_client gateway stored) f.file f.name (type_of f))
            fetch_assets)
          (λ _. pure tt))
        (λ o. record o { this = record o.this { uploading = false } })

  -- `handleDelete`
  unfoldable pub handle_delete : String → Method Storage Unit
  handle_delete raw_key =
      catch
        (do
          stored ← io (gets (λ w. w.local))
          result ← io (delete (get_buck_stream_client gateway stored) raw_key)
          fetch_assets)
        (λ _. pure tt)
