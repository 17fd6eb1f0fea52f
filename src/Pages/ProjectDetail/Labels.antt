-- ===== src/Pages/ProjectDetail/Labels.antt =====
-- What the page of a project says of its builds.
use mathlib.Core.List.{map-map}
use arcops.Prelude.{
  String, ◌≡◌, refl, ap, ◌∙◌, Bool, true, false, none, some, List, [], ◌∷◌, map, ◌==◌, eq_refl,
  ◌||◌, if◌then◌else◌,
}
use arcops.Js.Json.{Json, get}
use arcops.Js.Entries.{get_entry}
use arcops.Js.Exec.{Result, ok}
use arcops.Js.World.Object.{Object}
use arcops.Pages.Console.{Console, Build}
use arcops.Pages.Console.Builds.{build_of_run, is_str, show_builds, fetch_logs, expanded_or}
use arcops.Pages.Console.Builds.Loading.{fetch_logs-IsLoaded, fetch_logs-Keeps}
use arcops.Pages.ProjectDetail.{status_label}
use arcops.Pages.ProjectDetail.View.{
  is_building, heading, build_status, row, rows, terminal, lines_or_none,
}

-- What a run of GitHub Actions came to.
abbrev pub outcome : Json → String
outcome r =
    if is_str "completed" (get r "status")
    then if is_str "success" (get r "conclusion") then "SUCCESS" else "FAILED"
    else "BUILDING"

-- The same by the tests on the run.
abbrev status_by : Bool → Bool → String
status_by completed success =
    if completed then if success then "success" else "failure" else "building"

abbrev outcome_by : Bool → Bool → String
outcome_by completed success =
    if completed then if success then "SUCCESS" else "FAILED" else "BUILDING"

abbrev filled_status : String → String
filled_status s = if s == "" then "SUCCESS" else s

label_by : (a b : Bool) → status_label (filled_status (status_by a b)) ≡ outcome_by a b
unfolding status_label
label_by true true = refl
label_by true false = refl
label_by false true = refl
label_by false false = refl

building_by :
    (a b : Bool)
    → (status_by a b == "active" || status_by a b == "building") ≡ (outcome_by a b == "BUILDING")
building_by true true = refl
building_by true false = refl
building_by false true = refl
building_by false false = refl

module _ (c : Console) (r : Json) (bs : List Build) where
  label-run : (row c (build_of_run r)).label ≡ outcome r
  unfolding row build_of_run
  label-run = label_by (is_str "completed" (get r "status")) (is_str "success" (get r "conclusion"))

  heading-run : is_building (build_of_run r ∷ bs) ≡ (outcome r == "BUILDING")
  unfolding is_building build_of_run
  heading-run =
      building_by (is_str "completed" (get r "status")) (is_str "success" (get r "conclusion"))

module _ (c : Console) (b : Build) (bs : List Build) where
  label-active :
      b.stage_status ≡ "active"
      → ((row c b).label ≡ "SUCCESS") × (heading (b ∷ bs) ≡ "Building Edge Deployment...")
  unfolding row heading is_building build_status
  label-active h = (rw (h) refl, rw (h) refl)

-- The terminal of a build whose log is loaded.
terminal-loaded :
    (c : Console) (id : String)
    → get_entry c.loading_logs id ≡ some false
    → terminal c id ≡ lines_or_none (get_entry c.build_logs id)
unfolding terminal
terminal-loaded c id h = rw h refl

row-unfolded :
    (c : Console) (b : Build)
    → c.expanded_build_id ≡ some b.id
    → get_entry c.loading_logs b.id ≡ some false
    → (row c b).unfolded ≡ some (lines_or_none (get_entry c.build_logs b.id))
unfolding row
row-unfolded c b h k = rw (h, eq_refl b.id) (ap some (terminal-loaded c b.id k))

module _ (api project owner repo : String) (b : Build) (bs : List Build) where
  -- The listing is shown, with the row of the first build unfolded and its terminal not loading.
  abbrev pub IsShown : Result (Unit {0}) × Object Console → Type 0
  IsShown done =
      (done.0 ≡ ok tt)
      × ((done.1.this.builds ≡ b ∷ bs)
          × ((row done.1.this b).unfolded
              ≡ some (lines_or_none (get_entry done.1.this.build_logs b.id))))

  fetch_logs-IsShown :
      (o : Object Console)
      → o.this.builds ≡ b ∷ bs
      → o.this.expanded_build_id ≡ some b.id
      → IsShown (fetch_logs api project b.id owner repo o)
  fetch_logs-IsShown o h k =
      let loaded = fetch_logs-IsLoaded api project b.id owner repo o in
      let kept = fetch_logs-Keeps api project b.id owner repo o in
      let done = (fetch_logs api project b.id owner repo o).1.this in
      (loaded.0, (kept.0 ∙ h, row-unfolded done b (kept.1 ∙ k) loaded.1.0))

  pub show_builds-IsShown :
      (o : Object Console)
      → o.this.expanded_build_id ≡ none
      → IsShown (show_builds api project (b ∷ bs) owner repo o)
  unfolding show_builds
  show_builds-IsShown o h =
      fetch_logs-IsShown
        (record o {
          this = record o.this {
            builds = b ∷ bs;
            expanded_build_id = expanded_or o.this.expanded_build_id b.id;
          };
        })
        refl (ap (λ e. expanded_or e b.id) h)

labels-runs :
    (c : Console) (rs : List Json)
    → map (λ b. (row c b).label) (map build_of_run rs) ≡ map outcome rs
labels-runs c [] = refl
labels-runs c (r ∷ rs) =
    ap (λ l. l ∷ map (λ b. (row c b).label) (map build_of_run rs)) (label-run c r [])
    ∙ ap (λ ls. outcome r ∷ ls) (labels-runs c rs)

rows-label : (c : Console) → map (λ x. x.label) (rows c) ≡ map (λ b. (row c b).label) c.builds
unfolding rows
rows-label c = map-map (λ x. x.label) (row c) c.builds

module _ (api project owner repo : String) (r : Json) (rs : List Json) (o : Object Console) where
  -- The page when the runs have been listed.
  abbrev pub listed : Result (Unit {0}) × Object Console
  listed = show_builds api project (map build_of_run (r ∷ rs)) owner repo o

  -- The runs of GitHub Actions, when they are listed while no row is unfolded, whatever the network
  -- does: the rows are labelled by the outcomes of the runs, in their order; the card on top says that
  -- a build is running exactly if the newest run is not completed; and the row of the newest is
  -- unfolded, with its log in a terminal that is not loading.
  pub show_builds-rows :
      o.this.expanded_build_id ≡ none
      → (map (λ x. x.label) (rows listed.1.this) ≡ map outcome (r ∷ rs))
        × ((is_building listed.1.this.builds ≡ (outcome r == "BUILDING"))
            × IsShown api project owner repo (build_of_run r) (map build_of_run rs) listed)
  show_builds-rows h =
      let shown =
        show_builds-IsShown api project owner repo (build_of_run r) (map build_of_run rs) o h in
      let c = listed.1.this in
      (
        rows-label c ∙ (ap (map (λ b. (row c b).label)) shown.1.0 ∙ labels-runs c (r ∷ rs)),
        (ap is_building shown.1.0 ∙ heading-run c r (map build_of_run rs), shown),
      )
