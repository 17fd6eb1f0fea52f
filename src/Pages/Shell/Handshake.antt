-- ===== src/Pages/Shell/Handshake.antt =====
-- What the handshake makes of the session.
use arcops.Prelude.{String, ◌≡◌, Bool, true, false, arith, ◌||◌}
use arcops.Js.Json.{Json}
use arcops.Js.Exec.{Error, Result, ok, err}
use arcops.Js.World.{World}
use arcops.Js.World.WebStorage
use arcops.Js.World.WebStorage.{get_item-remove}
use arcops.Js.World.Session.{is_text, stored_token, stored_user}
use arcops.Web.ArcAuth.{get_me}
use arcops.Web.ArcAuth.SignIn.{get_me-error_signs_out}
use arcops.Web.Tenant.{Decoder}
use arcops.Pages.Shell.{hydrate, admits}

abbrev pub returned : Result Json → Bool
returned (ok v) = true
returned (err e) = false

module _ (d : Decoder) (gateway : String) where
  hydrate-error :
      (w : World) (e : Error)
      → (is_text (stored_user w.local) || is_text (stored_token w.local)) ≡ true
      → (get_me gateway w).0 ≡ err e
      → admits (hydrate gateway w).1.local ≡ false
  unfolding hydrate admits
  hydrate-error w e h f = ground (arith, get_me-error_signs_out gateway w e f)
