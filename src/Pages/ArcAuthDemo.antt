-- ===== src/Pages/ArcAuthDemo.antt =====
-- `ArcAuthPage`, web/src/components/arcauth-page.tsx: the sign-in that the page plays without a server.
pub mod Loading
pub mod Tests
use arcops.Prelude.{
  ℕ, ◌+◌, String, Bool, true, false, Option, none, some, List, [], ◌∷◌, ◌++◌, ◌==◌, if◌then◌else◌,
}
use arcops.Js.Text.{template}
use arcops.Js.Json.{Json, str, num, object}
use arcops.Js.Json.Stringify.{stringify}

pub data Stage : Type 0 where
  idle : Stage
  sent : Stage
  done : Stage

-- A timer that is set: that of `handleSend`, or that of `handleVerify` with the email at the click.
pub data Timer : Type 0 where
  to_sent : Timer
  to_done : String → Timer

pub record Demo : Type 0 where
  pub stage : Stage
  pub loading : Bool
  pub email : String
  pub code : String
  pub result_token : String
  pub timers : List Timer

-- What the platform gives: `btoa`, none where it throws, and the seconds since 1970.
pub record Platform : Type 0 where
  pub btoa : String → Option String
  pub now : ℕ

-- `handleSend` and `handleVerify`
unfoldable pub handle_send : Demo → Demo
handle_send p =
    if p.email == "" then p else record p { loading = true; timers = p.timers ++ to_sent ∷ [] }

unfoldable pub handle_verify : Demo → Demo
handle_verify p = record p { loading = true; timers = p.timers ++ to_done p.email ∷ [] }

-- The claims of the token that the page makes up.
unfoldable pub claims : ℕ → String → Json
claims now email = object (
    ("sub", str "usr_99182")
    ∷ ("email", str (if email == "" then "admin@arcops.dev" else email))
    ∷ ("role", str "admin")
    ∷ ("exp", num (now + 604800))
    ∷ [])

abbrev token_of : String → String
token_of encoded =
    template ("arc_jwt_eyJhbGciOiJIUzI1NiIsInR5cCI6IkpXVCJ9." ∷ encoded ∷ ".mock_sig_9f8d" ∷ [])

-- The callback of a timer. Where `btoa` throws, none of its updates happens.
abbrev finished : Option String → Demo → Demo
finished none p = p
finished (some encoded) p = record p {
  result_token = token_of encoded;
  stage = done;
  loading = false;
}

unfoldable pub fire : Platform → Timer → Demo → Demo
unfolding claims stringify
fire platform to_sent p = record p { stage = sent; loading = false }
fire platform (to_done email) p = finished (platform.btoa (stringify (claims platform.now email))) p

-- The first timer that is set runs out.
unfoldable pub run_out : Platform → Demo → Demo
unfolding fire
run_out platform p = elim p.timers [ [] ↦ p | t ∷ ts ↦ fire platform t (record p { timers = ts }) ]

-- The fields of the form
abbrev pub set_email : String → Demo → Demo
set_email email p = record p { email = email }

abbrev pub set_code : String → Demo → Demo
set_code code p = record p { code = code }

-- The button "Reset demo"
abbrev pub reset : Demo → Demo
reset p = record p { stage = idle; code = ""; result_token = "" }
