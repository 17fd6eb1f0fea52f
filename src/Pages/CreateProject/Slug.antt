-- ===== src/Pages/CreateProject/Slug.antt =====
-- The project name that a repository's name gives.
use Prim.Native.Char.{Char, code}
use Prim.Native.String.{[], ◌∷◌}
use arcops.Prelude.{String, ◌≡◌, refl, ap, true, arith, ltb, inl, inr, Bool-cases}
use arcops.Js.Text.{to_lower}
use arcops.Js.Text.Chars.{lower_char}
use arcops.Pages.CreateProject.{Form, Repo, is_slug_char, dashed, select_repo}

-- Small letters, digits and dashes.
abbrev pub IsSlug : String → Type 0
IsSlug [] = Unit
IsSlug (c ∷ s) = (is_slug_char c ≡ true) × IsSlug s

dashed-IsSlug : (s : String) → IsSlug (dashed s)
unfolding dashed
dashed-IsSlug [] = tt
dashed-IsSlug (c ∷ s) = elim (Bool-cases (is_slug_char c)) [
  | inl e ↦ rw (e, IsSlug) (e, dashed-IsSlug s)
  | inr e ↦
      rw (e, IsSlug)
        (elim (Bool-cases (ltb (code c) 0x10000)) [
          | inl f ↦ rw (f, IsSlug) (refl, dashed-IsSlug s)
          | inr f ↦ rw (f, IsSlug) (refl, (refl, dashed-IsSlug s))
        ])
]

lower_char-slug : (c : Char) → is_slug_char c ≡ true → lower_char c ≡ c
unfolding lower_char
lower_char-slug c h = ground arith

dashed_of_IsSlug : (s : String) → IsSlug s → dashed (to_lower s) ≡ s
unfolding dashed to_lower
dashed_of_IsSlug [] h = refl
dashed_of_IsSlug (c ∷ s) h =
    rw (lower_char-slug c h.0) (rw h.0 (ap (λ t. c ∷ t) (dashed_of_IsSlug s h.1)))

-- Choosing a repository names the project with small letters, digits and dashes only, and a
-- repository's name of that form is taken as it is.
select_repo-IsSlug :
    (f : Form) (repo : Repo)
    → IsSlug (select_repo f repo).project_name
      × (IsSlug repo.name → (select_repo f repo).project_name ≡ repo.name)
unfolding select_repo
select_repo-IsSlug f repo = (dashed-IsSlug (to_lower repo.name), dashed_of_IsSlug repo.name)
