-- ===== src/Pages/Console/Builds/Loading.antt =====
-- How loading a log ends.
use arcops.Prelude.{String, ◌≡◌, refl, ap, ◌∙◌, true, false, some, List, [], ◌∷◌, is_some, arith}
use arcops.Js.Exec.{Result, ok, err, handle, continue, pure}
use arcops.Js.World.Object.{Object, update}
use arcops.Pages.Console.{Console, ending}
use arcops.Pages.Console.Builds.{fetch_logs, load_lines, mark_loading, full_name, or_blank, part}
use arcops.Js.Entries.{get_entry, put_entry, get_entry-put_entry}

-- The log is there and its mark is taken back.
abbrev pub IsLoaded : String → Result (Unit {0}) × Object Console → Type 0
IsLoaded id done =
    (done.0 ≡ ok tt)
    × ((get_entry done.1.this.loading_logs id ≡ some false)
        × (is_some (get_entry done.1.this.build_logs id) ≡ true))

abbrev failed_log : List String
failed_log = "Failed to load deployment build logs." ∷ []

-- What follows the loading of the lines, whether they came or not.
abbrev finish : String → Result (List String) × Object Console → Result (Unit {0}) × Object Console
finish id (r, u) =
    ending (mark_loading id false)
      (λ _.
        continue (λ lines. update λ c. record c { build_logs = put_entry c.build_logs id lines })
          (handle (λ _. pure failed_log) (r, u)))
      u

finish-IsLoaded :
    (id : String) (r : Result (List String)) (u : Object Console) → IsLoaded id (finish id (r, u))
finish-IsLoaded id (ok lines) u = (
  refl,
  (
    get_entry-put_entry u.this.loading_logs id false,
    ap is_some (get_entry-put_entry u.this.build_logs id lines),
  ),
)
finish-IsLoaded id (err e) u = (
  refl,
  (
    get_entry-put_entry u.this.loading_logs id false,
    ap is_some (get_entry-put_entry u.this.build_logs id failed_log),
  ),
)

-- Loading the log of a build, whatever the network and the servers do, does not throw, takes the mark
-- of the build back, and leaves a log for it.
pub fetch_logs-IsLoaded :
    (api project id owner repo : String) (o : Object Console)
    → IsLoaded id (fetch_logs api project id owner repo o)
unfolding fetch_logs
fetch_logs-IsLoaded api project id owner repo o =
    let started = record o { this = mark_loading id true o.this } in
    let name = full_name started.this project in
    let done =
      load_lines api project id (or_blank owner (part name 0)) (or_blank repo (part name 1))
        started in
    finish-IsLoaded id done.0 done.1

-- Loading the lines changes only the world.
load_lines-this :
    (api project id owner repo : String) (o : Object Console)
    → (load_lines api project id owner repo o).1.this ≡ o.this
unfolding load_lines
load_lines-this api project id owner repo o = ground arith

-- The list of builds and the one that is unfolded stay.
abbrev pub Keeps : Console → Console → Type 0
Keeps c d = (d.builds ≡ c.builds) × (d.expanded_build_id ≡ c.expanded_build_id)

finish-Keeps :
    (id : String) (r : Result (List String)) (u : Object Console)
    → Keeps u.this (finish id (r, u)).1.this
finish-Keeps id (ok lines) u = (refl, refl)
finish-Keeps id (err e) u = (refl, refl)

pub fetch_logs-Keeps :
    (api project id owner repo : String) (o : Object Console)
    → Keeps o.this (fetch_logs api project id owner repo o).1.this
unfolding fetch_logs
fetch_logs-Keeps api project id owner repo o =
    let started = record o { this = mark_loading id true o.this } in
    let name = full_name started.this project in
    let first = or_blank owner (part name 0) in
    let second = or_blank repo (part name 1) in
    let done = load_lines api project id first second started in
    let same = load_lines-this api project id first second started in
    let kept = finish-Keeps id done.0 done.1 in
    (kept.0 ∙ ap (λ c. c.builds) same, kept.1 ∙ ap (λ c. c.expanded_build_id) same)
