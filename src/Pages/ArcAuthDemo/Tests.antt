-- ===== src/Pages/ArcAuthDemo/Tests.antt =====
-- The demo on concrete inputs.
use arcops.Prelude.{◌≡◌, refl, false, none, some, [], length, if◌then◌else◌}
use arcops.Prelude.Steps.{Reaches, here, next}
use arcops.Js.Text.{includes, decimal}
use arcops.Js.Json.Stringify.{stringify}
use arcops.Pages.ArcAuthDemo.{Demo, idle, Platform, claims, handle_send, handle_verify, set_email}
use arcops.Pages.ArcAuthDemo.Loading
use arcops.Pages.ArcAuthDemo.Loading.{IsTaken, run_out_all, Step, Reaches-ends}

-- It throws at a letter outside Latin-1.
abbrev latin : Platform
latin = record { btoa = λ s. if includes s "ś" then none else some "eyJ9"; now = 1767225600 }

abbrev opened : Demo
opened = record {
  stage = idle;
  loading = false;
  email = "ś@x.dev";
  code = "";
  result_token = "";
  timers = [];
}

abbrev typed : Demo
typed = record opened { email = "ann@x.dev" }

taken : IsTaken latin "ann@x.dev"
unfolding stringify claims includes decimal
taken = refl

also-IsTaken : IsTaken latin "anna@x.dev"
unfolding stringify claims includes decimal
also-IsTaken = refl

-- Two clicks before the first timer runs out, and another email.
abbrev clicked : Demo
clicked = handle_verify (set_email "anna@x.dev" (handle_send typed))

clicks : Reaches (Step latin) typed clicked
clicks =
    next (next (next here Loading.sends) (Loading.types "anna@x.dev" also-IsTaken)) Loading.verifies

Reaches-ends_example :
    ((run_out_all latin (length clicked.timers) clicked).loading ≡ false)
    × ((run_out_all latin (length clicked.timers) clicked).timers ≡ [])
Reaches-ends_example = Reaches-ends latin clicks (refl, (taken, tt))

throws : latin.btoa (stringify (claims latin.now opened.email)) ≡ none
unfolding stringify claims includes decimal
throws = refl
