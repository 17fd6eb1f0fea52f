-- ===== src/Pages/Console/Tests.antt =====
-- The console on concrete inputs.
use arcops.Prelude.{String, ◌≡◌, refl, some, [], ◌∷◌}
use arcops.Js.Json.{Json, str, object}
use arcops.Js.World.{Response, answer}
use arcops.Js.World.Object.{Object}
use arcops.Js.World.Sample.{world, reply_json}
use arcops.Pages.Console.Sample.{repo, console}
use arcops.Pages.CreateProject.{Form, Deployment, new_form, draft_key}
use arcops.Pages.Console.{Console}
use arcops.Js.Text.{decimal}
use arcops.Pages.Console.Builds.{time_ago}

abbrev api : String
api = "http://localhost:8000"

abbrev form : Form
form = record new_form { project_name = "app"; selected_repo = some repo }

abbrev refusal : Json
refusal = object (("error", str "no such repository") ∷ [])

abbrev refused : Response
refused = reply_json 200 [] refusal

abbrev page : Object Console
page = record {
  this = console;
  world = record (world [] (answer refused ∷ [])) { session = (draft_key, "{}") ∷ [] };
}

abbrev deployed : Deployment
deployed = record {
  repo_owner = some "ann";
  repo_name = some "app";
  project_name = some "app";
  branch = "main";
  root_dir = "";
  build_command = "npm run build";
  build_dir = "dist";
  env_vars = [];
}

time_ago_test : time_ago (some 7300) ≡ "2h ago"
unfolding time_ago decimal
time_ago_test = refl
