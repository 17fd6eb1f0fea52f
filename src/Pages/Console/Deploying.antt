-- ===== src/Pages/Console/Deploying.antt =====
-- Deploying and redeploying a project and saving its secrets, in
-- web/src/components/frontedge-console.tsx.
use arcops.Prelude.{
  String, true, false, Option, none, some, List, [], ◌∷◌, map, get_elem?, ◌==◌, if◌then◌else◌,
}
use arcops.Js.Text.{template, split}
use arcops.Js.Json.{Json, undefined, str, object, array, get, truthy, or_else, to_string}
use arcops.Js.Exec.{pure, catch, prop, ◌>>=◌, ◌>>◌}
use arcops.Js.World.{Response, read_json, is_ok, navigate, alert, set_timeout}
use arcops.Js.World.Object.{Method, io, read, update}
use arcops.Pages.EnvVars.{EnvVar}
use arcops.Pages.CreateProject.{Deployment, env_json}
use arcops.Pages.Console.{Console, call, ending, owner_and_repo, fetch_projects}

abbrev text_json : Option String → Json
text_json none = undefined
text_json (some s) = str s

abbrev pub project_path : Deployment → String
project_path p =
    template ("/frontedge-console/project/" ∷ to_string (text_json p.project_name) ∷ [])

abbrev pub deploy_body : Deployment → Json
deploy_body p = object (
    ("repo_owner", text_json p.repo_owner)
    ∷ ("repo_name", text_json p.repo_name)
    ∷ ("project_name", text_json p.project_name)
    ∷ ("branch", str p.branch)
    ∷ ("root_dir", str p.root_dir)
    ∷ ("build_command", str p.build_command)
    ∷ ("build_dir", str p.build_dir)
    ∷ ("env_vars", array (map env_json p.env_vars))
    ∷ [])

-- What the answer to a deployment does.
abbrev pub deploy_error : Json → Json
deploy_error value =
    or_else (get value "error") (or_else (get value "message") (str "Failed to deploy project"))

abbrev pub redeploy_body : Console → Json
redeploy_body c =
    let parts = split b'/' (owner_and_repo c) in
    object (
      ("owner", text_json (get_elem? parts 0))
      ∷ ("repo", text_json (get_elem? parts 1))
      ∷ ("branch", str "main")
      ∷ [])

module _ (api : String) where
  unfoldable pub settle_deploy : Deployment → Response → Json → Method Console Unit
  settle_deploy p res value = do
    error ← (if is_ok res then prop value "error" else pure (str "refused"))
    if truthy error
        then (do prop value "error"; update (λ c. record c { error = deploy_error value }))
        else (do fetch_projects api; io (navigate (project_path p)))

  -- `handleDeploy`
  unfoldable pub deploy : Deployment → Method Console Unit
  unfolding call read_json
  deploy p = do
    update λ c. record c { deploying = true }
    update λ c. record c { error = str "" }
    ending (λ c. record c { deploying = false })
        (catch
          (do
            res ←
                io (
                  call (template (api ∷ "/api/frontedge/deploy" ∷ [])) "POST"
                    (some (deploy_body p)))
            value ← io (read_json res)
            settle_deploy p res value)
          (λ e. update λ c. record c {
            error = str (if e.message == "" then "Network error deploying project" else e.message);
          }))

  alerting : String → Method Console Unit → Method Console Unit
  alerting message m = catch m (λ _. io (alert message))

  -- `handleRedeploy`; the builds are loaded again when the timer fires.
  unfoldable pub redeploy : Method Console Unit
  unfolding call alerting split
  redeploy = do
    console ← read (λ c. c)
    if console.active_project == "" then pure tt else (do
      update λ c. record c { redeploying = true }
      ending (λ c. record c { redeploying = false })
          (alerting "Failed to trigger redeploy." (do
            res ← io (
                call (template (api ∷ "/api/frontedge/redeploy" ∷ [])) "POST"
                  (some (redeploy_body console)))
            if is_ok res
                then (do
                  io (alert "🚀 Redeploy triggered via GitHub Actions workflow dispatch!")
                  io set_timeout)
                else io (alert (template ("Failed to trigger redeploy: " ∷ res.text ∷ []))))))

  -- `handleSaveSecrets`
  unfoldable pub save_secrets : List EnvVar → Method Console Unit
  unfolding call alerting
  save_secrets vars = do
    console ← read (λ c. c)
    if console.active_project == "" then pure tt else (do
      update λ c. record c { saving_secrets = true }
      ending (λ c. record c { saving_secrets = false })
          (alerting "Failed to update environment variables." (do
            res ← io (
                call (template (api ∷ "/api/frontedge/env" ∷ [])) "PATCH" (
                  some (
                    object (
                      ("project", str console.active_project)
                      ∷ ("env_vars", array (map env_json vars))
                      ∷ []))))
            if is_ok res
                then io (alert "Environment variables updated successfully!")
                else io (alert "Failed to update environment variables."))))
