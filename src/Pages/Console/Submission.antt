-- ===== src/Pages/Console/Submission.antt =====
-- Deploying from the form of the page for a new project: what is sent, and what is left.
use arcops.Prelude.{String, none, some, [], ◌∷◌}
use arcops.Js.Text.{template}
use arcops.Js.Json.{Json}
use arcops.Js.World.{Request}
use arcops.Js.World.Object.{Object}
use arcops.Pages.CreateProject.{Deployment}
use arcops.Pages.Console.{Console, call_request}
use arcops.Pages.Console.Deploying.{deploy_body}

module _ (api : String) where
  abbrev pub deploy_request : Deployment → Object Console → Request
  deploy_request p o =
      call_request (template (api ∷ "/api/frontedge/deploy" ∷ [])) "POST" (some (deploy_body p))
        o.world.local

  abbrev pub projects_request : Object Console → Request
  projects_request o =
      call_request (template (api ∷ "/api/frontedge/projects" ∷ [])) "GET" none o.world.local
