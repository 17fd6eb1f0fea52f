-- ===== src/Pages/Console/Sample.antt =====
-- A console on which nothing is loaded, for the tests.
use arcops.Prelude.{false, none, some, []}
use arcops.Js.Json.{null, str, array}
use arcops.Pages.CreateProject.{Repo}
use arcops.Pages.Console.{Console}

abbrev pub repo : Repo
repo = record { full_name = "ann/app"; name = "app"; is_private = false; html_url = "" }

abbrev pub console : Console
console = record {
  active_project = "app";
  status = null;
  loading_status = false;
  projects = array [];
  loading_projects = false;
  repos = array [];
  loading_repos = false;
  selected_repo = some repo;
  deploying = false;
  builds = [];
  expanded_build_id = none;
  build_logs = [];
  loading_logs = [];
  error = str "";
  redeploying = false;
  saving_secrets = false;
}
