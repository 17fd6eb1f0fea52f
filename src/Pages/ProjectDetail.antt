-- ===== src/Pages/ProjectDetail.antt =====
-- The secrets of a project, web/src/components/frontedge/frontedge-project-detail.tsx. Adding and
-- removing a row is as in the form for a new project.
pub mod View
pub mod Labels
pub mod Tests
use arcops.Prelude.{ℕ, zero, suc, String, ◌≡◌, refl, Bool, ◌||◌, List, [], ◌∷◌, ◌==◌, if◌then◌else◌}
use arcops.Js.Text.{to_lower}
use arcops.Js.Exec.{◌>>◌}
use arcops.Js.World.Object.{Method, update}
use arcops.Pages.EnvVars.{EnvVar, named, add_env_var, remove_env_var}

-- A field and its new value.
pub data Change : Type 0 where
  set_key : String → Change
  set_value : String → Change
  set_secret : Bool → Change

abbrev changed : Change → EnvVar → EnvVar
changed (set_key s) v = record v { key = s }
changed (set_value s) v = record v { value = s }
changed (set_secret b) v = record v { is_secret = b }

-- `handleModalAddEnv`
unfoldable modal_add_env : List EnvVar → List EnvVar
unfolding add_env_var
modal_add_env vars = add_env_var vars

-- `handleModalRemoveEnv`
unfoldable modal_remove_env : ℕ → List EnvVar → List EnvVar
unfolding remove_env_var
modal_remove_env idx vars = remove_env_var vars idx

-- `handleModalUpdateEnv`, of a row of the form
unfoldable modal_update_env : ℕ → Change → List EnvVar → List EnvVar
modal_update_env idx change [] = []
modal_update_env zero change (v ∷ vs) = changed change v ∷ vs
modal_update_env (suc idx) change (v ∷ vs) = v ∷ modal_update_env idx change vs

-- `handleSaveModalSecrets`, on a page whose modal is closed by `close`
unfoldable save_modal_secrets :
    {S : Type 0} → (List EnvVar → Method S Unit) → (S → S) → List EnvVar → Method S Unit
unfolding named
save_modal_secrets on_save close vars = do on_save (named vars); update close

-- `statusLabel`
unfoldable pub status_label : String → String
unfolding to_lower
status_label st =
    let lower = to_lower st in
    if lower == "success" || lower == "active"
    then "SUCCESS"
    else if lower == "failure" || lower == "failed"
    then "FAILED"
    else if lower == "building" || lower == "in_progress"
    then "BUILDING"
    else "SUCCESS"

-- `statusColor`
unfoldable pub status_color : String → String
unfolding status_label
status_color st =
    let s = status_label st in
    if s == "SUCCESS"
    then "bg-emerald-500/10 text-emerald-400 border-emerald-500/20"
    else if s == "FAILED"
    then "bg-red-500/10 text-red-400 border-red-500/20"
    else "bg-amber-500/10 text-amber-400 border-amber-500/20"
