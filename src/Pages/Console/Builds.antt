-- ===== src/Pages/Console/Builds.antt =====
-- The builds of a project and their logs, in web/src/components/frontedge-console.tsx.
pub mod Loading
use Prim.Native.String.{[], ◌∷◌}
use arcops.Prelude.{
  ℕ, zero, suc, ◌/◌, String, Bool, true, false, not, ◌&&◌, ◌||◌, Option, none, some, List, [], ◌∷◌,
  map, filter, any, get_elem?, get_or, ltb, ◌==◌, if◌then◌else◌,
}
use arcops.Js.Text.{template, split, trim, decimal}
use arcops.Js.Json.{
  Json, undefined, str, get, truthy, or_else, to_string, is_array, array_of, is_nullish,
}
use arcops.Js.Json.Stringify.{stringify}
use arcops.Js.Exec.{pure, throw, catch, prop, type_error, ◌>>=◌, ◌>>◌}
use arcops.Js.World.{Io, Response, read_json, is_ok}
use arcops.Js.World.Object.{Method, io, read, update}
use arcops.Pages.Console.{Console, Build, call, get_json, owner_and_repo, ignoring, ending}
use arcops.Js.Entries.{put_entry}

unfoldable pub take_text : ℕ → String → String
take_text zero s = ""
take_text (suc n) [] = ""
take_text (suc n) (c ∷ s) = c ∷ take_text n s

unfoldable pub is_str : String → Json → Bool
is_str s (str t) = t == s
is_str s _ = false

-- `owner` and `repo` of a full name; a missing part is blank.
abbrev part : String → ℕ → String
part name i = get_or (get_elem? (split b'/' name) i) ""

abbrev full_name : Console → String → String
full_name c project = owner_and_repo (record c { active_project = project })

abbrev or_blank : String → String → String
or_blank s t = if s == "" then t else s

abbrev pub run_status : Json → String
run_status r =
    if is_str "completed" (get r "status")
    then if is_str "success" (get r "conclusion") then "success" else "failure"
    else "building"

-- A run of GitHub Actions as a build.
unfoldable pub build_of_run : Json → Build
unfolding take_text is_str
build_of_run r = record {
  id = to_string (get r "id");
  short_id =
      if truthy (get r "head_sha")
      then take_text 7 (to_string (get r "head_sha"))
      else to_string (get r "id");
  created_on = get r "created_at";
  stage_name = to_string (or_else (get r "name") (str "Deploy to Cloudflare Pages"));
  stage_status = run_status r;
}

-- A field that every reader takes with `||`: blank where the value is missing or falsy.
abbrev text_or_blank : Json → String
text_or_blank v = if truthy v then to_string v else ""

-- A deployment of Cloudflare, whose fields the page takes as they are.
abbrev pub build_of : Json → Build
build_of d = record {
  id = to_string (get d "id");
  short_id = text_or_blank (get d "short_id");
  created_on = get d "created_on";
  stage_name = text_or_blank (get (get d "latest_stage") "name");
  stage_status = text_or_blank (get (get d "latest_stage") "status");
}

-- `l.line || (typeof l === "string" ? l : JSON.stringify(l))`, which is the same in both branches.
abbrev log_line : Json → String
log_line (str s) = s
log_line l = if truthy (get l "line") then to_string (get l "line") else stringify l

lines_of : Json → Method Console (List String)
unfolding stringify
lines_of v =
    if is_array v && not (any is_nullish (array_of v))
    then pure (map log_line (array_of v))
    else throw type_error

-- The lines in the answer of the deployer.
stored_lines : Json → Method Console (List String)
unfolding lines_of
stored_lines value = do
  result ← prop value "result"
  if truthy result && truthy (get result "data")
      then lines_of (get result "data")
      else if is_array value
      then lines_of value
      else pure ("No build log history returned for this deployment." ∷ [])

abbrev filled_lines : String → List String
filled_lines text = filter (λ l. not (trim l == "")) (split b'\n' text)

abbrev mark_loading : String → Bool → Console → Console
mark_loading id b c = record c { loading_logs = put_entry c.loading_logs id b }

abbrev pub expanded_or : Option String → String → Option String
expanded_or none id = some id
expanded_or (some s) id = if s == "" then some id else some s

module _ (api : String) where
  -- The log of a run of GitHub Actions; blank where there is none.
  workflow_log : String → String → String → Method Console String
  unfolding call
  workflow_log owner repo id = if owner == "" || repo == "" then pure "" else (do
    res ← io (
        call
          (template (
            api ∷ "/api/frontedge/gh-logs?owner=" ∷ owner ∷ "&repo=" ∷ repo ∷ "&run_id=" ∷ id ∷ []))
          "GET" none)
    pure (if is_ok res then res.text else ""))

  unfoldable pub load_lines : String → String → String → String → Method Console (List String)
  unfolding workflow_log stored_lines read_json call trim
  load_lines project id owner repo = do
    text ← workflow_log owner repo id
    if trim text == ""
        then (do
          value ←
              get_json api (template ("/api/frontedge/logs?project=" ∷ project ∷ "&id=" ∷ id ∷ []))
          stored_lines value)
        else pure (filled_lines text)

  -- `fetchLogsById`
  unfoldable pub fetch_logs : String → String → String → String → Method Console Unit
  unfolding split
  fetch_logs project id owner repo = do
    update (mark_loading id true)
    ending (mark_loading id false) (do
      console ← read (λ c. c)
      let name = full_name console project
      lines ←
          catch (load_lines project id (or_blank owner (part name 0)) (or_blank repo (part name 1)))
            (λ _. pure ("Failed to load deployment build logs." ∷ []))
      update λ c. record c { build_logs = put_entry c.build_logs id lines })

  -- The builds are shown, the first is unfolded if none is, and its log is loaded.
  unfoldable pub show_builds : String → List Build → String → String → Method Console Unit
  show_builds project [] owner repo = update λ c. record c { builds = [] }
  show_builds project (b ∷ bs) owner repo = do
    update λ c. record c { builds = b ∷ bs }
    update λ c. record c { expanded_build_id = expanded_or c.expanded_build_id b.id }
    fetch_logs project b.id owner repo

  runs_in : Response → Method Console (List Json)
  unfolding read_json
  runs_in res =
      if is_ok res
      then (do
        value ← io (read_json res)
        runs ← prop value "workflow_runs"
        if any is_nullish (array_of runs) then throw type_error else pure (array_of runs))
      else pure []

  -- The runs of a repository; none where the name is not complete.
  workflow_runs : String → String → Method Console (List Json)
  unfolding call runs_in
  workflow_runs owner repo = if owner == "" || repo == "" then pure [] else (do
    res ← io (
        call (template (api ∷ "/api/frontedge/gh-runs?owner=" ∷ owner ∷ "&repo=" ∷ repo ∷ [])) "GET"
          none)
    runs_in res)

  deployment_list : Json → Method Console (List Json)
  deployment_list value = do
    result ← prop value "result"
    pure (if truthy result && is_array result then array_of result else array_of value)

  show_deployments : String → List Json → Method Console Unit
  unfolding show_builds
  show_deployments project list =
      if any is_nullish list
      then throw type_error
      else show_builds project (map build_of list) "" ""

  show_runs_or : String → String → String → List Json → Method Console Unit
  unfolding show_builds show_deployments deployment_list read_json call build_of_run
  show_runs_or project owner repo [] = do
    value ← get_json api (template ("/api/frontedge/deployments?project=" ∷ project ∷ []))
    list ← deployment_list value
    show_deployments project list
  show_runs_or project owner repo (r ∷ rs) =
      show_builds project (map build_of_run (r ∷ rs)) owner repo

  -- `fetchDeployments`, which every caller gives the project alone
  unfoldable pub fetch_deployments : String → Method Console Unit
  unfolding workflow_runs show_runs_or split
  fetch_deployments project = ignoring (do
    console ← read (λ c. c)
    let name = full_name console project
    runs ← workflow_runs (part name 0) (part name 1)
    show_runs_or project (part name 0) (part name 1) runs)

-- `timeAgo`, on the seconds that have passed; a date to come counts as now.
unfoldable pub time_ago : Option ℕ → String
time_ago none = "recently"
time_ago (some seconds) =
    if ltb seconds 60
    then "just now"
    else if ltb seconds 3600
    then template (decimal (seconds / 60) ∷ "m ago" ∷ [])
    else if ltb seconds 86400
    then template (decimal (seconds / 3600) ∷ "h ago" ∷ [])
    else template (decimal (seconds / 86400) ∷ "d ago" ∷ [])
