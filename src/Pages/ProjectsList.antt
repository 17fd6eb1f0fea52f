-- ===== src/Pages/ProjectsList.antt =====
-- The list of projects, web/src/components/frontedge/frontedge-projects-list.tsx, and the site that the
-- page of a project opens, in web/src/components/frontedge-console.tsx.
use arcops.Prelude.{
  String, ◌≡◌, refl, false, ◌||◌, Option, none, some, List, [], ◌∷◌, filter, find, ◌==◌,
  if◌then◌else◌,
}
use arcops.Js.Text.{template, includes, to_lower}

pub record Project : Type 0 where
  pub name : String
  pub subdomain : String
  pub production_branch : String

-- `filteredProjects`
unfoldable pub filtered_projects : String → List Project → List Project
unfolding includes to_lower
filtered_projects search projects =
    filter
      (λ p.
        includes (to_lower p.name) (to_lower search)
        || includes (to_lower p.subdomain) (to_lower search))
      projects

-- What a card shows under the name of its project, and what its link opens.
unfoldable pub card_host : Project → String
card_host p = if p.subdomain == "" then template (p.name ∷ ".pages.dev" ∷ []) else p.subdomain

unfoldable pub card_url : Project → String
card_url p =
    if p.subdomain == ""
    then template ("https://" ∷ p.name ∷ ".pages.dev" ∷ [])
    else template ("https://" ∷ p.subdomain ∷ [])

unfoldable pub card_branch : Project → String
card_branch p = if p.production_branch == "" then "main" else p.production_branch

abbrev or_project : Option Project → Option Project → Option Project
or_project none other = other
or_project (some p) other = some p

-- `currentProjectObj`
unfoldable pub current_project : List Project → Option Project → String → Option Project
current_project projects selected active =
    or_project (find (λ p. p.name == active) projects) selected

abbrev subdomain_of : Option Project → String
subdomain_of none = ""
subdomain_of (some p) = p.subdomain

-- `liveUrl`
unfoldable pub live_url : List Project → Option Project → String → String
unfolding current_project
live_url projects selected active =
    let subdomain = subdomain_of (current_project projects selected active) in
    if subdomain == ""
    then if active == "" then "" else template ("https://" ∷ active ∷ ".pages.dev" ∷ [])
    else template ("https://" ∷ subdomain ∷ [])

-- The page of a project opens the site that its card opens, if no project before it has its name and
-- the name is not blank.
live_url-card_url :
    (projects : List Project) (selected : Option Project) (p : Project)
    → find (λ q. q.name == p.name) projects ≡ some p
    → (p.name == "") ≡ false
    → live_url projects selected p.name ≡ card_url p
unfolding live_url card_url
live_url-card_url projects selected p h k = rw h (rw k refl)

search_test :
    filtered_projects "APP" (
      record { name = "my-app"; subdomain = ""; production_branch = "" }
      ∷ record { name = "blog"; subdomain = "blog.pages.dev"; production_branch = "" }
      ∷ [])
    ≡ record { name = "my-app"; subdomain = ""; production_branch = "" } ∷ []
unfolding filtered_projects
search_test = refl
