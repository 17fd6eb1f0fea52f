-- ===== src/Pages/Login/View.antt =====
-- What the form of the login page shows and does, web/src/components/login-page.tsx.
use arcops.Prelude.{String, Bool, false, not, Option, none, some, if◌then◌else◌}
use arcops.Js.World.Object.{Method}
use arcops.Pages.Login.{Form, send_otp, verify_otp, is_forbidden_error}

-- The notice over the form: an error, in the form of a refusal with its picture or plain, and a
-- success.
pub data Notice : Type 0 where
  forbidden : String → Notice
  plain : String → Notice

unfoldable pub notice : Option String → Option Notice
unfolding is_forbidden_error
notice none = none
notice (some e) = if is_forbidden_error (some e) then some (forbidden e) else some (plain e)

-- The field of the email is closed once a code was sent; the field of the code is there from then on.
unfoldable pub edits_email : Form → Bool
edits_email f = not f.otp_sent

unfoldable pub submit_label : Form → String
submit_label f =
    if f.loading
    then "Processing..."
    else if f.otp_sent
    then "Verify Code & Sign In"
    else "Send Email OTP"

abbrev pub type_email : String → Form → Form
type_email s f = record f { email = s }

abbrev pub type_code : String → Form → Form
type_code s f = record f { otp_code = s }

-- `onSubmit` of the form
unfoldable pub submit : String → Method Form Unit
submit gateway o = if o.this.otp_sent then verify_otp gateway o else send_otp gateway o

-- The button "Change Email"
unfoldable pub change_email : Form → Form
change_email f = record f { otp_sent = false; otp_code = ""; error = none; success = none }
