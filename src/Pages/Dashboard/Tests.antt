-- ===== src/Pages/Dashboard/Tests.antt =====
-- The dashboard on concrete inputs.
use arcops.Prelude.{String, ◌≡◌, refl, false, none, some, [], ◌∷◌}
use arcops.Prelude.Steps.{Reaches, here, next}
use arcops.Js.Text.{decimal, strip_prefix}
use arcops.Js.World.Object.{Object}
use arcops.Js.World.Sample.{world}
use arcops.Buckstream.Demo.{Chosen}
use arcops.Pages.Dashboard.{
  Storage, Points, max_from, max_lease, latest, asset_name, handle_file_upload, handle_delete,
}
use arcops.Pages.Dashboard.Outcomes
use arcops.Pages.Dashboard.Outcomes.{IsGuarded, AreUpTo, Reaches-IsGuarded}

abbrev points : Points
points = ("10:00", some 4) ∷ ("10:05", some 9) ∷ ("10:10", some 2) ∷ []

labels_test : (max_lease points ≡ some "9 leases") × (latest "/s" points ≡ some "2/s")
unfolding max_lease latest decimal
labels_test = (refl, refl)

sandbox_test : asset_name "sandbox/prj_1/index.html" ≡ "index.html"
unfolding asset_name
sandbox_test = refl

not_sandbox : strip_prefix "sandbox/" "a.png" ≡ none
unfolding strip_prefix
not_sandbox = refl

abbrev photo : Chosen
photo = record {
  name = "a.png";
  content_type = "";
  file = record { size = some 3; byte_length = none; buffer_length = none; contents = "abc" };
}

abbrev start : Object Storage
start = record {
  this = record { assets = []; uploading = false; uploaded_file_name = none };
  world = world (("arcauth_token", "abc") ∷ []) [];
}

abbrev gateway : String
gateway = "http://localhost:8000"

abbrev uploaded : Object Storage
uploaded = (handle_file_upload gateway photo start).1

steps : Reaches (Outcomes.Step gateway) start (handle_delete gateway "uploads/a.png" uploaded).1
steps = next (next here (Outcomes.uploads photo)) (Outcomes.deletes "uploads/a.png")

Reaches-IsGuarded_example :
    IsGuarded gateway (handle_delete gateway "uploads/a.png" uploaded).1.world
Reaches-IsGuarded_example = Reaches-IsGuarded gateway steps tt

largest : max_from (some 4) (("10:05", some 9) ∷ ("10:10", some 2) ∷ []) ≡ some 9
unfolding max_from
largest = refl
