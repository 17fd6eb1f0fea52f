-- ===== src/Pages/EnvVars/Tests.antt =====
-- The pasting on concrete inputs.
use arcops.Prelude.{◌≡◌, ◌||◌, refl, true, false, List, [], ◌∷◌}
use arcops.Js.Text.{includes}
use arcops.Pages.EnvVars.{EnvVar, blank, parse_env, paste_env, is_secret_key}
use arcops.Pages.EnvVars.Merge.{paste_env-eq}
use arcops.Pages.EnvVars.Paste.{print_env, IsPrintable, parse_env-print_env}

abbrev port : EnvVar
port = record { key = "PORT"; value = "80 \"x\" # y"; is_secret = false }

abbrev api_key : EnvVar
api_key = record { key = "API_KEY"; value = "a=b"; is_secret = true }

abbrev vars : List EnvVar
vars = port ∷ api_key ∷ []

-- The row before goes, since it is blank; the one behind the variable stays.
is_one : parse_env "API_KEY=a=b\n" ≡ api_key ∷ []
unfolding parse_env
is_one = refl

is_pasted : (includes "API_KEY=a=b\n" "\n" || includes "API_KEY=a=b\n" "=") ≡ true
unfolding includes
is_pasted = refl

paste_env-eq_example :
    paste_env (blank ∷ port ∷ blank ∷ []) 1 "API_KEY=a=b\n" ≡ api_key ∷ blank ∷ []
paste_env-eq_example =
    paste_env-eq (blank ∷ []) (port ∷ blank ∷ []) (blank ∷ api_key ∷ []) [] api_key blank
      "API_KEY=a=b\n" is_pasted is_one refl

port-IsPrintable : IsPrintable port
unfolding is_secret_key
port-IsPrintable = (
  ((refl, (refl, (refl, (refl, tt)))), refl),
  ((refl, (refl, (refl, (refl, (refl, (refl, (refl, (refl, (refl, (refl, tt)))))))))), refl),
)

api_key-IsPrintable : IsPrintable api_key
unfolding is_secret_key
api_key-IsPrintable = (
  ((refl, (refl, (refl, (refl, (refl, (refl, (refl, tt))))))), refl),
  ((refl, (refl, (refl, tt))), refl),
)

parse_env-print_env_example : parse_env (print_env vars) ≡ vars
parse_env-print_env_example = parse_env-print_env vars (port-IsPrintable, (api_key-IsPrintable, tt))
