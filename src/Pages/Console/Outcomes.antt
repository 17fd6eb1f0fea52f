-- ===== src/Pages/Console/Outcomes.antt =====
-- How the console's handlers end.
use arcops.Prelude.{
  String, ◌≡◌, true, false, not, ◌&&◌, none, some, List, [], ◌∷◌, ◌++◌, arith, ◌==◌, if◌then◌else◌,
}
use arcops.Js.Text.{template}
use arcops.Js.Json.{Json, str, get, truthy, is_nullish}
use arcops.Js.Exec.{ok}
use arcops.Js.World.{Response, Reply, answer, is_ok}
use arcops.Js.World.WebStorage.{get_item, get_item-remove}
use arcops.Js.World.Object.{Object}
use arcops.Pages.EnvVars.{EnvVar}
use arcops.Pages.CreateProject.{Form, Repo, Deployment, draft_key, deployment, deploy_click}
use arcops.Pages.Console.{Console, fetch_projects, call_request}
use arcops.Pages.Console.Deploying.{
  deploy, deploy_error, redeploy, save_secrets, settle_deploy, project_path, deploy_body,
}

module _ (api : String) where
  pub fetch_projects-settles :
      (o : Object Console)
      → ((fetch_projects api o).0 ≡ ok tt)
        × ((fetch_projects api o).1.this.loading_projects ≡ false)
  unfolding fetch_projects
  fetch_projects-settles o = ground arith

  pub deploy-settles :
      (p : Deployment) (o : Object Console)
      → ((deploy api p o).0 ≡ ok tt) × ((deploy api p o).1.this.deploying ≡ false)
  unfolding deploy settle_deploy
  deploy-settles p o = ground arith

  redeploy-settles :
      (o : Object Console)
      → (o.this.active_project == "") ≡ false
      → ((redeploy api o).0 ≡ ok tt) × ((redeploy api o).1.this.redeploying ≡ false)
  unfolding redeploy
  redeploy-settles o h = ground arith

  save_secrets-settles :
      (vars : List EnvVar) (o : Object Console)
      → (o.this.active_project == "") ≡ false
      → ((save_secrets api vars o).0 ≡ ok tt)
        × ((save_secrets api vars o).1.this.saving_secrets ≡ false)
  unfolding save_secrets
  save_secrets-settles vars o h = ground arith

  -- Deploying, redeploying and saving secrets end without a throw and with their mark taken back,
  -- whatever the network and the server do.
  deploy-redeploy-settle :
      (p : Deployment) (vars : List EnvVar) (o : Object Console)
      → (o.this.active_project == "") ≡ false
      → (((deploy api p o).0 ≡ ok tt) × ((deploy api p o).1.this.deploying ≡ false))
        × ((((redeploy api o).0 ≡ ok tt) × ((redeploy api o).1.this.redeploying ≡ false))
            × (((save_secrets api vars o).0 ≡ ok tt)
                × ((save_secrets api vars o).1.this.saving_secrets ≡ false)))
  deploy-redeploy-settle p vars o h =
      (deploy-settles p o, (redeploy-settles o h, save_secrets-settles vars o h))

  fetch_projects-keeps :
      (o : Object Console)
      → ((fetch_projects api o).1.this.error ≡ o.this.error)
        × (((fetch_projects api o).1.world.visited ≡ o.world.visited)
            × ((fetch_projects api o).1.world.session ≡ o.world.session))
  unfolding fetch_projects
  fetch_projects-keeps o = ground arith

  -- The page while the projects are loaded again.
  abbrev pub after_deploy : Deployment → Object Console → List Reply → Object Console
  after_deploy p o rest = record {
    this = record o.this { deploying = true; error = str "" };
    world = record o.world {
      sent =
          o.world.sent
          ++ call_request (template (api ∷ "/api/frontedge/deploy" ∷ [])) "POST"
              (some (deploy_body p)) o.world.local
            ∷ [];
      replies = rest;
    };
  }

  settle_deploy-outcome :
      (p : Deployment) (o : Object Console) (r : Response) (value : Json)
      → is_nullish value ≡ false
      → ((settle_deploy api p r value o).0 ≡ ok tt)
        × (((settle_deploy api p r value o).1.this.error ≡ (
              if is_ok r && not (truthy (get value "error"))
              then o.this.error
              else deploy_error value))
            × ((settle_deploy api p r value o).1.world.visited ≡ (
                if is_ok r && not (truthy (get value "error"))
                then o.world.visited ++ project_path p ∷ []
                else o.world.visited)))
  unfolding settle_deploy
  settle_deploy-outcome p o r value h =
      ground (arith, fetch_projects-keeps o, fetch_projects-settles o)

  module _ (p : Deployment) (o : Object Console) (r : Response) (rest : List Reply) (value : Json)
      (replies : o.world.replies ≡ answer r ∷ rest) (body : r.json ≡ some value)
      (present : is_nullish value ≡ false) where
    -- A deployment that the server refuses, by its status or by an error in its answer, shows what the
    -- server said and goes to no page; one that it accepts shows no error and goes to the project's.
    pub deploy-outcome :
        ((deploy api p o).1.this.error
          ≡ (if is_ok r && not (truthy (get value "error")) then str "" else deploy_error value))
        × ((deploy api p o).1.world.visited ≡ (
            if is_ok r && not (truthy (get value "error"))
            then o.world.visited ++ project_path p ∷ []
            else o.world.visited))
    unfolding deploy
    deploy-outcome = ground (arith, settle_deploy-outcome p (after_deploy p o rest) r value present)

  -- The draft of the form is forgotten after a deployment, also after one that failed.
  deploy_click-forgets_draft :
      (f : Form) (repo : Repo) (o : Object Console)
      → f.selected_repo ≡ some repo
      → get_item (deploy_click (deploy api) f o).1.world.session draft_key ≡ none
  unfolding deploy_click
  deploy_click-forgets_draft f repo o h = ground (
    arith,
    deploy-settles (deployment f repo) o,
    get_item-remove (deploy api (deployment f repo) o).1.world.session draft_key draft_key,
  )
