-- ===== src/Pages/Console.antt =====
-- `FrontedgeConsole`, web/src/components/frontedge-console.tsx: its state, and the handlers that load
-- the lists. A call that is not awaited runs at once here.
pub mod Deploying
pub mod Builds
pub mod Outcomes
pub mod Submission
pub mod Sample
pub mod Tests
use arcops.Prelude.{
  ℕ, String, Bool, true, false, not, ◌&&◌, ◌||◌, Option, none, some, List, [], ◌∷◌, map, get_elem?,
  ◌==◌, if◌then◌else◌,
}
use arcops.Js.Text.{template, split, includes}
use arcops.Js.Json.{
  Json, undefined, null, str, object, array, get, truthy, or_else, to_string, is_array,
}
use arcops.Js.Exec.{Error, pure, catch, finally, prop, ◌>>=◌, ◌>>◌}
use arcops.Js.World.{
  World, Io, Storage, Request, Response, fetch, read_json, is_ok, navigate, alert, set_timeout,
}
use arcops.Js.World.Object.{Object, Method, io, read, update}
use arcops.Js.World.Session.{stored_token}
use arcops.Pages.EnvVars.{EnvVar}
use arcops.Pages.CreateProject.{Repo, Deployment, env_json}

-- One build of a project.
pub record Build : Type 0 where
  pub id : String
  pub short_id : String
  pub created_on : Json
  pub stage_name : String
  pub stage_status : String

pub record Console : Type 0 where
  pub active_project : String
  pub status : Json
  pub loading_status : Bool
  pub projects : Json
  pub loading_projects : Bool
  pub repos : Json
  pub loading_repos : Bool
  pub selected_repo : Option Repo
  pub deploying : Bool
  pub builds : List Build
  pub expanded_build_id : Option String
  pub build_logs : List (String × List String)
  pub loading_logs : List (String × Bool)
  pub error : Json
  pub redeploying : Bool
  pub saving_secrets : Bool

-- The screen that a path shows.
pub data Screen : Type 0 where
  dashboard : Screen
  new_project : Screen
  project_detail : Screen

unfoldable pub screen_of : String → Screen
unfolding includes
screen_of path =
    if includes path "/frontedge-console/new"
    then new_project
    else if includes path "/frontedge-console/project/"
    then project_detail
    else dashboard

abbrev bearer_if : Option String → List (String × String)
bearer_if none = []
bearer_if (some t) = if t == "" then [] else ("Authorization", template ("Bearer " ∷ t ∷ [])) ∷ []

-- `getAuthHeaders`; unlike the clients, it sends the stored token as it is.
unfoldable pub get_auth_headers : Storage → List (String × String)
unfolding stored_token
get_auth_headers stored = ("Content-Type", "application/json") ∷ bearer_if (stored_token stored)

-- A request with those headers. `credentials` is left at its default.
abbrev pub call_request : String → String → Option Json → Storage → Request
call_request url method body stored = record {
  url = url;
  method = method;
  headers = get_auth_headers stored;
  credentials = false;
  body = body;
}

unfoldable pub call : String → String → Option Json → Io Response
unfolding get_auth_headers fetch
call url method body w = fetch (call_request url method body w.local) w

-- `catch (e) { console.error(e) }` and `finally { … }`
abbrev pub ignoring : Method Console Unit → Method Console Unit
ignoring m = catch m (λ _. pure tt)

abbrev pub ending : (Console → Console) → Method Console Unit → Method Console Unit
ending f m = finally m (λ o. record o { this = f o.this })

abbrev pub owner_and_repo : Console → String
owner_and_repo c = elim c.selected_repo [
  | none ↦ template (
      to_string (
        or_else (if truthy c.status then get c.status "github_username" else undefined)
          (str "Parthtiw710"))
      ∷ "/"
      ∷ c.active_project
      ∷ [])
  | some r ↦ r.full_name
]

module _ (api : String) where
  abbrev pub get_json : String → Method Console Json
  get_json path = do res ← io (call (template (api ∷ path ∷ [])) "GET" none); io (read_json res)

  keep_projects : Json → Method Console Unit
  keep_projects value = do
    result ← prop value "result"
    if truthy result && is_array result
        then update (λ c. record c { projects = result })
        else pure tt

  -- `fetchProjects`
  unfoldable pub fetch_projects : Method Console Unit
  unfolding call read_json keep_projects
  fetch_projects = do
    update λ c. record c { loading_projects = true }
    ending (λ c. record c { loading_projects = false })
        (ignoring (do value ← get_json "/api/frontedge/projects"; keep_projects value))

  keep_repos : Json → Method Console Unit
  keep_repos value = if is_array value then update (λ c. record c { repos = value }) else (do
    repos ← prop value "repos"
    if truthy repos then update (λ c. record c { repos = repos }) else pure tt)

  -- `fetchRepos`
  unfoldable pub fetch_repos : Method Console Unit
  unfolding call read_json keep_repos
  fetch_repos = do
    update λ c. record c { loading_repos = true }
    ending (λ c. record c { loading_repos = false })
        (ignoring (do value ← get_json "/api/frontedge/repos"; keep_repos value))

  when : Json → Method Console Unit → Method Console Unit
  when v m = if truthy v then m else pure tt

  -- `fetchStatus`
  unfoldable pub fetch_status : Method Console Unit
  unfolding call read_json fetch_projects fetch_repos when
  fetch_status = do
    update λ c. record c { loading_status = true }
    ending (λ c. record c { loading_status = false })
        (ignoring (do
          value ← get_json "/api/frontedge/status"
          update λ c. record c { status = value }
          cloudflare ← prop value "cloudflare_configured"
          when cloudflare fetch_projects
          github ← prop value "github_configured"
          when github fetch_repos))

  -- `handleSelectProjectCard`, on the name of the project
  unfoldable pub select_project_card : String → Method Console Unit
  select_project_card name = io (navigate (template ("/frontedge-console/project/" ∷ name ∷ [])))
