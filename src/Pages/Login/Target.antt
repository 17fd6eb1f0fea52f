-- ===== src/Pages/Login/Target.antt =====
-- The address that is verified.
use arcops.Prelude.{String, ◌≡◌, true, List, [], ◌∷◌, ◌++◌, ◌⊎◌}
use arcops.Js.World.{Request, Reply}
use arcops.Js.World.Object.{Object}
use arcops.Pages.Login.{Form, otp_request, verify_request, send_otp}
use arcops.Pages.Login.View.{edits_email, type_email, type_code, submit, change_email}

abbrev pub IsIn : Request → List Request → Type 0
IsIn r [] = ⊥
IsIn r (s ∷ ss) = (r ≡ s) ⊎ IsIn r ss

module _ (gateway : String) where
  -- Behind the requests `before`, only codes are asked for and verified, and none is verified for an
  -- address to which no code was asked for.
  pub data IsAsked (before : List Request) : List Request → Type 0 where
    start : IsAsked before before
    ask :
        {sent : List Request} (f : Form)
        → IsAsked before sent
        → IsAsked before (sent ++ otp_request gateway f ∷ [])
    verify :
        {sent : List Request} (f : Form)
        → IsIn (otp_request gateway f) sent
        → IsAsked before sent
        → IsAsked before (sent ++ verify_request gateway f ∷ [])

  -- What the user does on the page, one thing after the other, and replies that arrive.
  pub data Step : Object Form → Object Form → Type 0 where
    email_typed :
        (o : Object Form) (s : String)
        → edits_email o.this ≡ true
        → Step o (record o { this = type_email s o.this })
    code_typed : (o : Object Form) (s : String) → Step o (record o { this = type_code s o.this })
    submitted : (o : Object Form) → Step o (submit gateway o).1
    resent : (o : Object Form) → o.this.otp_sent ≡ true → Step o (send_otp gateway o).1
    email_changed : (o : Object Form) → Step o (record o { this = change_email o.this })
    replied :
        (o : Object Form) (replies : List Reply)
        → Step o (record o { world = record o.world { replies = replies } })

  -- If a code was sent, it was asked for the address that the form shows.
  abbrev pub IsTargeted : List Request → Object Form → Type 0
  IsTargeted before o =
      IsAsked before o.world.sent
      × (o.this.otp_sent ≡ true → IsIn (otp_request gateway o.this) o.world.sent)
