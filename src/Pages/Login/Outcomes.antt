-- ===== src/Pages/Login/Outcomes.antt =====
-- How the login page's handlers end.
use arcops.Prelude.{
  ℕ, String, ◌≡◌, refl, Option, Bool, true, false, ◌||◌, any, eqb, none, some, List, [], ◌∷◌, ◌++◌,
  arith, ◌==◌, ltb, if◌then◌else◌,
}
use arcops.Js.Json.{Json, str, get, or_else, to_string, is_nullish}
use arcops.Js.Text.{template, decimal}
use arcops.Js.Exec.{ok}
use arcops.Js.World.{World, Storage, Response, Reply, answer, is_ok}
use arcops.Js.World.Object.{Object}
use arcops.Js.World.Session.{stored_token, stored_user}
use arcops.Web.Session.{logout}
use arcops.Web.Session.Laws.{logout-clears}
use arcops.Pages.Login.{
  Form, has_error_page, error_path, send_otp, verify_otp, verify_request, utf_16_length, open_login,
  revoke, show_refusal,
}

-- What the server said of a refused code.
abbrev pub said : Json → ℕ → String
said value status = to_string (
    or_else (get value "message") (
      or_else (get value "error")
        (str (template ("HTTP " ∷ decimal status ∷ ": " ∷ "OTP verification failed" ∷ [])))))

-- The statuses that have a page of their own.
abbrev pub is_for_error_page : ℕ → Bool
is_for_error_page status = any (λ s. eqb status s) (401 ∷ 403 ∷ 429 ∷ []) || ltb 499 status

-- The world after the request of a code, answered by the first reply.
abbrev pub after_verify : String → Object Form → List Reply → World
after_verify gateway o rest = record o.world {
  sent = o.world.sent ++ verify_request gateway o.this ∷ [];
  replies = rest;
}

module _ (gateway : String) where
  send_otp-settles :
      (o : Object Form)
      → (o.this.email == "") ≡ false
      → ((send_otp gateway o).0 ≡ ok tt) × ((send_otp gateway o).1.this.loading ≡ false)
  unfolding send_otp
  send_otp-settles o h = ground arith

  verify_otp-settles :
      (o : Object Form)
      → (o.this.otp_code == "" || ltb (utf_16_length o.this.otp_code) 6) ≡ false
      → ((verify_otp gateway o).0 ≡ ok tt) × ((verify_otp gateway o).1.this.loading ≡ false)
  unfolding verify_otp
  verify_otp-settles o h = ground arith

  -- Both handlers, on a form that is filled in, never throw and leave the form not loading, whatever
  -- the network and the server do.
  send_otp-verify_otp-settle :
      (o : Object Form)
      → (o.this.email == "") ≡ false
      → (o.this.otp_code == "" || ltb (utf_16_length o.this.otp_code) 6) ≡ false
      → (((send_otp gateway o).0 ≡ ok tt) × ((send_otp gateway o).1.this.loading ≡ false))
        × (((verify_otp gateway o).0 ≡ ok tt) × ((verify_otp gateway o).1.this.loading ≡ false))
  send_otp-verify_otp-settle o h k = (send_otp-settles o h, verify_otp-settles o k)

  revoke-local : (t : Option String) (w : World) → (revoke gateway t w).1.local ≡ w.local
  unfolding revoke
  revoke-local t w = ground arith

  show_refusal-eq :
      (query : Storage) (o : Object Form)
      → ((show_refusal gateway query o).0 ≡ ok tt)
        × ((show_refusal gateway query o).1.world ≡ o.world)
  unfolding show_refusal
  show_refusal-eq query o = ground arith

  logout-ok : (w : World) → (logout w).0 ≡ ok tt
  unfolding logout
  logout-ok w = refl

  open_login-local :
      (query : Storage) (o : Object Form)
      → (open_login gateway query o).1.world.local ≡ (logout o.world).1.local
  unfolding open_login
  open_login-local query o = ground (
    arith,
    show_refusal-eq query o,
    logout-ok o.world,
    revoke-local (stored_token o.world.local) (logout o.world).1,
  )

  -- Opening the page signs out, whatever the query, the session and the network.
  open_login-signs_out :
      (query : Storage) (o : Object Form)
      → (stored_token (open_login gateway query o).1.world.local ≡ none)
        × (stored_user (open_login gateway query o).1.world.local ≡ none)
  open_login-signs_out query o = rw (open_login-local query o) (logout-clears o.world)

  module _ (o : Object Form) (r : Response) (rest : List Reply) (value : Json)
      (filled : (o.this.otp_code == "" || ltb (utf_16_length o.this.otp_code) 6) ≡ false)
      (replies : o.world.replies ≡ answer r ∷ rest) (body : r.json ≡ some value)
      (present : is_nullish value ≡ false) where
    pub verify_otp-refused :
        is_ok r ≡ false
        → ((verify_otp gateway o).1.world.local ≡ o.world.local)
          × (((verify_otp gateway o).1.this.error
                ≡ (if has_error_page r.status then none else some (said value r.status)))
              × ((verify_otp gateway o).1.world.visited ≡ (
                  if has_error_page r.status
                  then o.world.visited ++ error_path r.status (said value r.status) ∷ []
                  else o.world.visited)))
    unfolding verify_otp
    verify_otp-refused bad = ground arith

  -- With a code that is too short nothing is sent or stored.
  verify_otp-short :
      (o : Object Form)
      → (o.this.otp_code == "" || ltb (utf_16_length o.this.otp_code) 6) ≡ true
      → (verify_otp gateway o).1.world ≡ o.world
  unfolding verify_otp
  verify_otp-short o h = ground arith
