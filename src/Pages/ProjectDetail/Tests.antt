-- ===== src/Pages/ProjectDetail/Tests.antt =====
-- The builds of a project on concrete inputs.
use arcops.Prelude.{◌≡◌, refl, [], ◌∷◌, map, ◌==◌}
use arcops.Js.Json.{Json, str, object}
use arcops.Js.World.Object.{Object}
use arcops.Js.World.Sample.{world}
use arcops.Pages.Console.{Console}
use arcops.Pages.Console.Sample.{console}
use arcops.Pages.Console.Builds.{build_of_run}
use arcops.Pages.ProjectDetail.{status_label}
use arcops.Pages.ProjectDetail.View.{is_building, rows, line_color}
use arcops.Pages.ProjectDetail.Labels.{IsShown, listed, outcome, show_builds-rows}

abbrev running : Json
running = object (("id", str "2") ∷ ("status", str "in_progress") ∷ [])

abbrev failed : Json
failed = object (("id", str "1") ∷ ("status", str "completed") ∷ ("conclusion", str "failure") ∷ [])

abbrev page : Object Console
page = record { this = console; world = world [] [] }

show_builds-rows_example :
    (map (λ x. x.label) (rows (listed "" "app" "ann" "app" running (failed ∷ []) page).1.this)
      ≡ map outcome (running ∷ failed ∷ []))
    × ((is_building (listed "" "app" "ann" "app" running (failed ∷ []) page).1.this.builds
          ≡ (outcome running == "BUILDING"))
        × IsShown "" "app" "ann" "app"
            (build_of_run running)
            (map build_of_run (failed ∷ []))
            (listed "" "app" "ann" "app" running (failed ∷ []) page))
show_builds-rows_example = show_builds-rows "" "app" "ann" "app" running (failed ∷ []) page refl

line_test : line_color "vite: Built in 3s" ≡ "text-emerald-400"
unfolding line_color
line_test = refl

status_test : status_label "Failure" ≡ "FAILED"
unfolding status_label
status_test = refl
