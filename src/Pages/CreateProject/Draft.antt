-- ===== src/Pages/CreateProject/Draft.antt =====
-- A draft that is stored and restored.
use arcops.Prelude.{
  String, ◌≡◌, refl, ap, ◌∙◌, false, Option, none, some, List, [], ◌∷◌, map, ◌==◌, if◌then◌else◌,
}
use arcops.Js.Text.Empty.{append-ne_empty}
use arcops.Js.Json.{get, elems, items}
use arcops.Js.Json.Stringify.{stringify}
use arcops.Js.World.{World}
use arcops.Js.World.WebStorage.{get_item, get_item-put}
use arcops.Web.Tenant.{Decoder}
use arcops.Pages.EnvVars.{EnvVar}
use arcops.Pages.CreateProject.{
  set_saved, env_of, repo_if, repo_json, Form, Repo, draft, draft_key, env_json, persist, set_draft,
  restore,
}

abbrev pub text_or : String → String → String
text_or s old = if s == "" then old else s

-- The form that a stored form comes back as: the texts that were blank, but for the root directory,
-- come back with their defaults, and the marks of what is unfolded are not restored.
abbrev pub restored : Form → Form → Form
restored initial f = record initial {
  project_name = text_or f.project_name initial.project_name;
  branch = text_or f.branch initial.branch;
  root_dir = f.root_dir;
  build_command = text_or f.build_command initial.build_command;
  build_dir = text_or f.build_dir initial.build_dir;
  install_command = text_or f.install_command initial.install_command;
  env_vars = f.env_vars;
  selected_repo = elim f.selected_repo [ none ↦ initial.selected_repo | some r ↦ some r ];
  search = text_or f.search initial.search;
}

env_of-env_json : (vs : List EnvVar) → map env_of (elems (items (map env_json vs))) ≡ vs
unfolding get
env_of-env_json [] = refl
env_of-env_json (v ∷ vs) = ap (λ l. v ∷ l) (env_of-env_json vs)

repo_if-repo_json :
    (r old : Option Repo) → repo_if (repo_json r) old ≡ (elim r [ none ↦ old | some q ↦ some q ])
unfolding get
repo_if-repo_json none old = refl
repo_if-repo_json (some r) old = refl

set_draft-draft : (initial f : Form) → set_draft initial (draft f) ≡ restored initial f
unfolding set_draft get
set_draft-draft initial f =
    rw (env_of-env_json f.env_vars)
      (rw (repo_if-repo_json f.selected_repo initial.selected_repo) refl)

stringify-draft_ne_empty : (f : Form) → (stringify (draft f) == "") ≡ false
unfolding stringify
stringify-draft_ne_empty f = append-ne_empty "{" "" _

get_item-persist :
    (f : Form) (w : World) → get_item (persist f w).session draft_key ≡ some (stringify (draft f))
unfolding persist
get_item-persist f w = get_item-put w.session draft_key (stringify (draft f)) draft_key

-- If `JSON.parse` reads back the draft that `JSON.stringify` wrote, a page that opens after the form
-- was stored shows it again, but for blank texts other than the root directory, which come back with
-- their defaults, and for what is unfolded.
pub restore-persist :
    (d : Decoder) (initial f : Form) (w : World)
    → d.parse (stringify (draft f)) ≡ some (draft f)
    → restore d initial (persist f w) ≡ restored initial f
unfolding restore persist
restore-persist d initial f w h =
    ap (set_saved d initial) (get_item-persist f w)
    ∙ rw (stringify-draft_ne_empty f) (rw h (set_draft-draft initial f))
