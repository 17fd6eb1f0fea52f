-- ===== src/Pages/ProjectDetail/View.antt =====
-- What the page of a project shows of its builds,
-- web/src/components/frontedge/frontedge-project-detail.tsx.
use arcops.Prelude.{
  ℕ, suc, String, Bool, false, ◌||◌, Option, none, some, List, [], ◌∷◌, map, ◌==◌, if◌then◌else◌,
}
use arcops.Js.Text.{includes, to_lower, template}
use arcops.Js.Json.{Json}
use arcops.Js.Entries.{get_entry}
use arcops.Pages.Console.{Console, Build}
use arcops.Pages.Console.Builds.{take_text}
use arcops.Pages.ProjectDetail.{status_label, status_color}

-- The card on top: whether the newest build is still running, by its stage.
unfoldable pub is_building : List Build → Bool
is_building [] = false
is_building (b ∷ bs) = b.stage_status == "active" || b.stage_status == "building"

unfoldable pub heading : List Build → String
unfolding is_building
heading builds =
    if is_building builds then "Building Edge Deployment..." else "Live Edge Deployment"

-- `dep.latest_stage?.status || "SUCCESS"`
unfoldable pub build_status : Build → String
build_status b = if b.stage_status == "" then "SUCCESS" else b.stage_status

unfoldable pub line_color : String → String
unfolding includes to_lower
line_color line =
    let lower = to_lower line in
    if includes lower "error"
    then "text-red-400"
    else if includes lower "warn"
    then "text-amber-300"
    else if includes lower "built in" || includes lower "done"
    then "text-emerald-400"
    else "text-zinc-300"

-- One line of the terminal: its number, its color and its text.
pub record LogLine : Type 0 where
  pub number : ℕ
  pub color : String
  pub text : String

unfoldable pub log_lines : ℕ → List String → List LogLine
unfolding line_color
log_lines n [] = []
log_lines n (l ∷ ls) =
    record { number = suc n; color = line_color l; text = l } ∷ log_lines (suc n) ls

-- The terminal of a build.
pub data Terminal : Type 0 where
  loading : Terminal
  no_output : Terminal
  output : List LogLine → Terminal

abbrev is_set : Option Bool → Bool
is_set none = false
is_set (some b) = b

abbrev pub lines_or_none : Option (List String) → Terminal
lines_or_none none = no_output
lines_or_none (some []) = no_output
lines_or_none (some (l ∷ ls)) = output (log_lines 0 (l ∷ ls))

unfoldable pub terminal : Console → String → Terminal
unfolding log_lines
terminal c id =
    if is_set (get_entry c.loading_logs id)
    then loading
    else lines_or_none (get_entry c.build_logs id)

-- The row of a build; its terminal is there while the row is unfolded.
pub record Row : Type 0 where
  pub color : String
  pub label : String
  pub number : String
  pub triggered : Json
  pub stage : String
  pub unfolded : Option Terminal

abbrev pub is_id : Option String → String → Bool
is_id none id = false
is_id (some s) id = s == id

unfoldable pub row : Console → Build → Row
unfolding build_status status_label status_color terminal take_text
row c b = record {
  color = status_color (build_status b);
  label = status_label (build_status b);
  number = template ("Build #" ∷ (if b.short_id == "" then take_text 7 b.id else b.short_id) ∷ []);
  triggered = b.created_on;
  stage = if b.stage_name == "" then "Deploy to Cloudflare Pages" else b.stage_name;
  unfolded = if is_id c.expanded_build_id b.id then some (terminal c b.id) else none;
}

unfoldable pub rows : Console → List Row
unfolding row
rows c = map (row c) c.builds

-- A click on a row folds it if it is unfolded, and unfolds it alone otherwise.
unfoldable pub click_row : String → Console → Console
click_row id c = record c {
  expanded_build_id = if is_id c.expanded_build_id id then none else some id;
}
