-- ===== src/Pages/CreateProject/View.antt =====
-- What the page for a new project shows, and its controls,
-- web/src/components/frontedge/frontedge-create-project.tsx.
use arcops.Prelude.{
  String, Bool, not, Option, none, some, List, [], ◌∷◌, map, length, ◌==◌, if◌then◌else◌,
}
use arcops.Js.Text.{template, decimal}
use arcops.Pages.EnvVars.{EnvVar}
use arcops.Pages.CreateProject.{Repo, Form, filtered_repos}

-- The first step: the repositories
pub record RepoRow : Type 0 where
  pub name : String
  pub line : String

abbrev pub repo_row : Repo → RepoRow
repo_row r = record {
  name = r.name;
  line = template (r.full_name ∷ " " ∷ (if r.is_private then "· Private" else "· Public") ∷ []);
}

pub data Repos : Type 0 where
  loading_repos : Repos
  no_match : Repos
  repos : List RepoRow → Repos

abbrev matching : List Repo → Repos
matching [] = no_match
matching (r ∷ rs) = repos (map repo_row (r ∷ rs))

-- The second step: the form
pub record BuildSettings : Type 0 where
  pub build_command : String
  pub build_dir : String
  pub install_command : String

pub record Config : Type 0 where
  pub full_name : String
  pub branch : String
  pub project_name : String
  pub root_dir : String
  pub root_dir_button : String
  pub build_settings : Option BuildSettings
  pub build_settings_label : String
  pub env_vars : Option (List EnvVar)
  pub env_vars_label : String
  pub error : Option String
  pub deploys : Bool
  pub deploy_label : String

abbrev some_text : String → Option String
some_text s = if s == "" then none else some s

-- The path that is shown while it is not edited.
unfoldable pub shown_dir : Form → String
shown_dir f =
    if f.editing_root_dir
    then f.root_dir
    else if f.root_dir == ""
    then "./"
    else template ("./" ∷ f.root_dir ∷ [])

unfoldable pub config : Form → Bool → String → Repo → Config
unfolding shown_dir decimal
config f deploying error repo = record {
  full_name = repo.full_name;
  branch = if f.branch == "" then "main" else f.branch;
  project_name = f.project_name;
  root_dir = shown_dir f;
  root_dir_button = if f.editing_root_dir then "Done" else "Edit";
  build_settings =
      if f.show_build_settings
      then some (record {
        build_command = f.build_command;
        build_dir = f.build_dir;
        install_command = f.install_command;
      })
      else none;
  build_settings_label = if f.show_build_settings then "Hide" else "Show";
  env_vars = if f.show_env_vars then some f.env_vars else none;
  env_vars_label = template (decimal (length f.env_vars) ∷ " set" ∷ []);
  error = some_text error;
  deploys = not deploying;
  deploy_label = if deploying then "Deploying Project..." else "Deploy";
}

pub data Step : Type 0 where
  choose : Repos → Step
  configure : Config → Step

-- The page, with what the console gives it: the repositories, whether they are loading, whether a
-- deployment runs, and the error.
unfoldable pub step_of : List Repo → Bool → Bool → String → Form → Option Repo → Step
unfolding config filtered_repos
step_of rs loading deploying error f none =
    choose (if loading then loading_repos else matching (filtered_repos f.search rs))
step_of rs loading deploying error f (some repo) = configure (config f deploying error repo)

unfoldable pub step : List Repo → Bool → Bool → String → Form → Step
unfolding step_of
step rs loading deploying error f = step_of rs loading deploying error f f.selected_repo

-- The controls
abbrev pub search : String → Form → Form
search s f = record f { search = s }

abbrev pub change_repo : Form → Form
change_repo f = record f { selected_repo = none }

abbrev pub type_project_name : String → Form → Form
type_project_name s f = record f { project_name = s }

abbrev pub toggle_root_dir : Form → Form
toggle_root_dir f = record f { editing_root_dir = not f.editing_root_dir }

abbrev pub type_root_dir : String → Form → Form
type_root_dir s f = record f { root_dir = s }

abbrev pub toggle_build_settings : Form → Form
toggle_build_settings f = record f { show_build_settings = not f.show_build_settings }

abbrev pub type_build_command : String → Form → Form
type_build_command s f = record f { build_command = s }

abbrev pub type_build_dir : String → Form → Form
type_build_dir s f = record f { build_dir = s }

abbrev pub type_install_command : String → Form → Form
type_install_command s f = record f { install_command = s }

abbrev pub toggle_env_vars : Form → Form
toggle_env_vars f = record f { show_env_vars = not f.show_env_vars }
