-- ===== src/Pages/CreateProject/Tests.antt =====
-- The form on concrete inputs.
use arcops.Prelude.{◌≡◌, refl, false, none, some, []}
use arcops.Js.World.Sample.{world}
use arcops.Web.Tenant.{Decoder}
use arcops.Pages.CreateProject.{Form, Repo, new_form, draft, restore, persist, filtered_repos}
use arcops.Pages.CreateProject.View.{shown_dir, step, choose, no_match, change_repo}
use arcops.Pages.CreateProject.Draft.{restored, restore-persist}

abbrev repo : Repo
repo = record {
  full_name = "ann/My_App.v2";
  name = "My_App.v2";
  is_private = false;
  html_url = "https://github.com/ann/My_App.v2";
}

abbrev filled : Form
filled = record new_form { project_name = "my-app"; root_dir = "web"; selected_repo = some repo }

abbrev decoder : Decoder
decoder = record {
  parse = λ s. some (draft filled);
  atob = λ s. none;
  decode_uri_component = λ s. some s;
}

restore-persist_example :
    restore decoder new_form (persist filled (world [] [])) ≡ restored new_form filled
restore-persist_example = restore-persist decoder new_form filled (world [] []) refl

-- The second step shows the path of the repository's folder; without a match the first one says so.
step_test :
    (shown_dir filled ≡ "./web") × (step [] false false "" (change_repo filled) ≡ choose no_match)
unfolding step shown_dir filtered_repos
step_test = (refl, refl)
