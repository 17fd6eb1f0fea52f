-- ===== src/Pages/CreateProject.antt =====
-- `FrontedgeCreateProject`, web/src/components/frontedge/frontedge-create-project.tsx: the form, its
-- draft in `sessionStorage`, choosing a repository, and deploying.
pub mod View
pub mod Draft
pub mod Slug
pub mod Tests
use Prim.Native.Char.{Char, code}
use Prim.Native.String.{[], ◌∷◌}
use arcops.Prelude.{
  ℕ, String, Bool, true, false, ◌&&◌, ◌||◌, Option, none, some, List, [], ◌∷◌, map, filter,
  get_elem?, eqb, leb, ltb, ◌==◌, if◌then◌else◌,
}
use arcops.Js.Text.{split, to_lower, includes}
use arcops.Js.Json.{
  Json, undefined, null, bool, str, object, array, get, truthy, is_array, array_of,
}
use arcops.Js.Json.Stringify.{stringify}
use arcops.Js.Exec.{pure, ◌>>=◌, ◌>>◌}
use arcops.Js.World.{World, Io, Storage}
use arcops.Js.World.WebStorage.{get_item, put, remove}
use arcops.Js.World.Object.{Object, Method}
use arcops.Web.Tenant.{Decoder}
use arcops.Pages.EnvVars.{EnvVar, blank, named}

pub record Repo : Type 0 where
  pub full_name : String
  pub name : String
  pub is_private : Bool
  pub html_url : String

pub record Form : Type 0 where
  pub search : String
  pub project_name : String
  pub branch : String
  pub root_dir : String
  pub editing_root_dir : Bool
  pub build_command : String
  pub build_dir : String
  pub install_command : String
  pub env_vars : List EnvVar
  pub show_build_settings : Bool
  pub show_env_vars : Bool
  pub selected_repo : Option Repo

abbrev pub new_form : Form
new_form = record {
  search = "";
  project_name = "";
  branch = "main";
  root_dir = "";
  editing_root_dir = false;
  build_command = "npm run build";
  build_dir = "dist";
  install_command = "npm install";
  env_vars = blank ∷ [];
  show_build_settings = false;
  show_env_vars = false;
  selected_repo = none;
}

abbrev pub draft_key : String
draft_key = "frontedge_create_project_draft"

-- The draft as a value.
abbrev pub env_json : EnvVar → Json
env_json v =
    object (("key", str v.key) ∷ ("value", str v.value) ∷ ("is_secret", bool v.is_secret) ∷ [])

abbrev pub repo_json : Option Repo → Json
repo_json none = null
repo_json (some r) = object (
    ("full_name", str r.full_name)
    ∷ ("name", str r.name)
    ∷ ("private", bool r.is_private)
    ∷ ("html_url", str r.html_url)
    ∷ [])

abbrev pub draft : Form → Json
draft f = object (
    ("projectName", str f.project_name)
    ∷ ("branch", str f.branch)
    ∷ ("rootDir", str f.root_dir)
    ∷ ("editingRootDir", bool f.editing_root_dir)
    ∷ ("showBuildSettings", bool f.show_build_settings)
    ∷ ("buildCommand", str f.build_command)
    ∷ ("buildDir", str f.build_dir)
    ∷ ("installCommand", str f.install_command)
    ∷ ("showEnvVars", bool f.show_env_vars)
    ∷ ("envVars", array (map env_json f.env_vars))
    ∷ ("selectedRepo", repo_json f.selected_repo)
    ∷ ("search", str f.search)
    ∷ [])

-- The effect that runs on every change of the form.
unfoldable pub persist : Form → World → World
unfolding stringify put
persist f w = record w { session = put w.session draft_key (stringify (draft f)) }

-- What a field of a draft sets; a draft holds texts, marks, variables and a repository in the places
-- where the page wrote them, and other values set nothing.
abbrev text_if : Json → String → String
text_if (str s) old = if s == "" then old else s
text_if _ old = old

abbrev text_if_any : Json → String → String
text_if_any (str s) old = s
text_if_any _ old = old

abbrev env_of : Json → EnvVar
env_of v = record {
  key = text_if_any (get v "key") "";
  value = text_if_any (get v "value") "";
  is_secret = truthy (get v "is_secret");
}

abbrev vars_if : Json → List EnvVar → List EnvVar
vars_if v old = if truthy v && is_array v then map env_of (array_of v) else old

abbrev repo_if : Json → Option Repo → Option Repo
repo_if v old =
    if truthy v
    then some (record {
      full_name = text_if_any (get v "full_name") "";
      name = text_if_any (get v "name") "";
      is_private = truthy (get v "private");
      html_url = text_if_any (get v "html_url") "";
    })
    else old

unfoldable pub set_draft : Form → Json → Form
unfolding get
set_draft f parsed = record f {
  project_name = text_if (get parsed "projectName") f.project_name;
  branch = text_if (get parsed "branch") f.branch;
  root_dir = text_if_any (get parsed "rootDir") f.root_dir;
  build_command = text_if (get parsed "buildCommand") f.build_command;
  build_dir = text_if (get parsed "buildDir") f.build_dir;
  install_command = text_if (get parsed "installCommand") f.install_command;
  env_vars = vars_if (get parsed "envVars") f.env_vars;
  selected_repo = repo_if (get parsed "selectedRepo") f.selected_repo;
  search = text_if (get parsed "search") f.search;
}

abbrev set_parsed : Form → Option Json → Form
set_parsed f none = f
set_parsed f (some parsed) = set_draft f parsed

abbrev set_saved : Decoder → Form → Option String → Form
set_saved d f none = f
set_saved d f (some saved) = if saved == "" then f else set_parsed f (d.parse saved)

-- The effect that runs when the page opens. A draft that does not parse is left alone.
unfoldable pub restore : Decoder → Form → World → Form
unfolding set_draft get_item
restore d f w = set_saved d f (get_item w.session draft_key)

-- `s.replace(/[^a-z0-9-]/g, "-")`, a code point of two UTF-16 units being replaced twice
abbrev pub is_slug_char : Char → Bool
is_slug_char c = let n = code c in (leb 97 n && leb n 122) || (leb 48 n && leb n 57) || eqb n 45

unfoldable pub dashed : String → String
dashed [] = ""
dashed (c ∷ s) =
    let rest = dashed s in
    if is_slug_char c
    then c ∷ rest
    else if ltb (code c) 0x10000
    then "-" ∷ rest
    else "-" ∷ "-" ∷ rest

-- `handleSelectRepo`
unfoldable pub select_repo : Form → Repo → Form
unfolding dashed to_lower
select_repo f repo = record f {
  selected_repo = some repo;
  project_name = dashed (to_lower repo.name);
}

-- What `onDeploy` is given; a full name with no slash has no second part.
pub record Deployment : Type 0 where
  pub repo_owner : Option String
  pub repo_name : Option String
  pub project_name : Option String
  pub branch : String
  pub root_dir : String
  pub build_command : String
  pub build_dir : String
  pub env_vars : List EnvVar

unfoldable pub deployment : Form → Repo → Deployment
unfolding named split
deployment f repo =
    let parts = split b'/' repo.full_name in
    record {
      repo_owner = get_elem? parts 0;
      repo_name = get_elem? parts 1;
      project_name = if f.project_name == "" then get_elem? parts 1 else some f.project_name;
      branch = f.branch;
      root_dir = f.root_dir;
      build_command = f.build_command;
      build_dir = f.build_dir;
      env_vars = named f.env_vars;
    }

-- `handleDeployClick`, with the state of the page that the form stands in
module _ {S : Type 0} (on_deploy : Deployment → Method S Unit) where
  forget_draft : Method S Unit
  unfolding remove
  forget_draft o =
      (pure tt (record o { world = record o.world { session = remove o.world.session draft_key } }))

  deploy_repo : Form → Option Repo → Method S Unit
  unfolding deployment forget_draft
  deploy_repo f none = pure tt
  deploy_repo f (some repo) = do on_deploy (deployment f repo); forget_draft

  unfoldable pub deploy_click : Form → Method S Unit
  unfolding deploy_repo
  deploy_click f = deploy_repo f f.selected_repo

-- `filteredRepos`
unfoldable pub filtered_repos : String → List Repo → List Repo
unfolding to_lower includes
filtered_repos search repos = filter (λ r. includes (to_lower r.full_name) (to_lower search)) repos
