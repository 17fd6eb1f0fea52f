-- ===== src/Pages/SqlDrawer/View.antt =====
-- What the SQL drawer shows, and its keys, web/src/components/sql-drawer.tsx. Times are in tenths of a
-- millisecond.
use Prim.Native.String.{[], ◌∷◌}
use arcops.Prelude.{
  ℕ, zero, suc, ◌/◌, ◌%◌, ◌==◌, eqb, String, Bool, ◌&&◌, ◌||◌, Option, none, some, List, [], ◌∷◌,
  map, length, if◌then◌else◌,
}
use arcops.Js.Text.{template, decimal, split}
use arcops.Js.Json.{Json, null, bool, get, to_string}
use arcops.Js.Exec.{pure}
use arcops.Js.World.Object.{Method}
use arcops.Web.DbmuxSdk.{Client}
use arcops.Web.Tenant.{Decoder}
use arcops.Pages.SqlDrawer.{Drawer, run_query}

-- The numbers beside the lines of the query.
abbrev numbered : ℕ → List String → List ℕ
numbered n [] = []
numbered n (l ∷ ls) = n ∷ numbered (suc n) ls

unfoldable pub line_nums : String → List ℕ
unfolding split
line_nums query = numbered 1 (split 10 query)

-- A cell of the table, with the look of its kind.
pub data Cell : Type 0 where
  null_cell : Cell
  bool_cell : Bool → Cell
  text_cell : String → Cell

unfoldable pub cell : Json → Cell
cell null = null_cell
cell (bool b) = bool_cell b
cell v = text_cell (to_string v)

abbrev pub cells : List String → Json → List Cell
cells columns row = map (λ col. cell (get row col)) columns

pub data Results : Type 0 where
  not_executed : Results
  no_rows : Results
  table : List String → List (List Cell) → Results

abbrev table_of : List String → Option (List Json) → Results
table_of columns none = not_executed
table_of columns (some []) = no_rows
table_of columns (some (row ∷ rows)) = table columns (map (cells columns) (row ∷ rows))

unfoldable pub results_area : Drawer → Results
results_area p = table_of p.columns p.results

-- A number of tenths as text.
unfoldable pub tenths : ℕ → String
unfolding decimal
tenths n =
    if eqb (n % 10) 0
    then decimal (n / 10)
    else template (decimal (n / 10) ∷ "." ∷ decimal (n % 10) ∷ [])

-- The line behind the heading of the results.
abbrev line_of : Option ℕ → Option (List Json) → Option String
line_of (some t) (some rows) = some (
    template (
      decimal (length rows)
      ∷ " row"
      ∷ (if eqb (length rows) 1 then "" else "s")
      ∷ " · "
      ∷ tenths t
      ∷ "ms"
      ∷ []))
line_of (some t) none = none
line_of none rows = none

unfoldable pub results_line : Drawer → Option String
unfolding decimal
results_line p = line_of p.exec_time p.results

-- `s.slice(0, n)` and `s.slice(n)`, with positions counted in characters
unfoldable pub slice_to : ℕ → String → String
slice_to zero s = ""
slice_to (suc n) [] = ""
slice_to (suc n) (c ∷ s) = c ∷ slice_to n s

unfoldable pub slice_from : ℕ → String → String
slice_from zero s = s
slice_from (suc n) [] = ""
slice_from (suc n) (c ∷ s) = slice_from n s

-- The Tab key puts two blanks in the place of what is selected.
unfoldable pub tab : ℕ → ℕ → Drawer → Drawer
unfolding slice_to slice_from
tab start end p = record p {
  query = template (slice_to start p.query ∷ "  " ∷ slice_from end p.query ∷ []);
}

-- `handleKeyDown`, and the button "Run", which is off while a query runs.
pub record Key : Type 0 where
  pub key : String
  pub ctrl : Bool
  pub meta : Bool

unfoldable pub is_run_key : Bool → Key → Bool
is_run_key is_open k = is_open && ((k.ctrl || k.meta) && (k.key == "Enter"))

module _ (d : Decoder) (client : Client) where
  unfoldable pub key_down : Bool → Key → ℕ → Method Drawer Unit
  key_down is_open k elapsed = if is_run_key is_open k then run_query d client elapsed else pure tt

  unfoldable pub run_click : ℕ → Method Drawer Unit
  run_click elapsed o = if o.this.executing then pure tt o else run_query d client elapsed o
