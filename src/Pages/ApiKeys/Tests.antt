-- ===== src/Pages/ApiKeys/Tests.antt =====
-- The panel on concrete inputs.
use arcops.Prelude.{String, ◌≡◌, refl, true, false, none, some, map, [], ◌∷◌, ◌==◌}
use arcops.Js.Text.{template, trim}
use arcops.Js.Json.{null, str}
use arcops.Js.Exec.{ok, err}
use arcops.Js.World.{network_error}
use arcops.Js.World.Object.{Object}
use arcops.Js.World.Sample.{world}
use arcops.Web.ArcAuth.{create_api_key, fetch_with_timeout}
use arcops.Pages.ApiKeys.{Platform, Panel, ApiKeyItem, made_up_key, create_key}
use arcops.Pages.ApiKeys.View.{dialog, save_key, listed, rows, row}
use arcops.Pages.ApiKeys.Outcomes.{create_key-shown}

abbrev platform : Platform
platform = record {
  locale_date = λ v. "1/1/2026";
  now = "1767225600000";
  random_start = "0f3a";
  random_rest = "5b6c7d8e9f01";
}

abbrev gateway : String
gateway = "http://localhost:8000"

abbrev key : ApiKeyItem
key = record { id = str "k1"; name = str "CI"; key_prefix = "arc_live_...****"; created_at = "" }

abbrev panel : Panel
panel = record {
  keys = key ∷ [];
  is_modal_open = true;
  new_key_name = "deploy";
  generated_key = null;
  copied = false;
  clipboard = none;
}

abbrev offline : Object Panel
offline = record { this = panel; world = world [] [] }

named : (trim panel.new_key_name == "") ≡ false
unfolding trim
named = refl

no_key : (create_api_key gateway (trim panel.new_key_name) offline.world).0 ≡ err network_error
unfolding create_api_key fetch_with_timeout trim
no_key = refl

create_key-shown_example :
    ((create_key platform gateway offline).0 ≡ ok tt)
    × ((dialog (create_key platform gateway offline).1.this
          ≡ some (save_key (made_up_key platform) false))
        × (listed (create_key platform gateway offline).1.this.keys
            ≡ rows (
                record {
                  name = trim "deploy";
                  key_prefix = template ("arc_live_" ∷ "0f3a" ∷ "...****" ∷ []);
                  created = "Created Just now";
                }
                ∷ map row (key ∷ []))))
create_key-shown_example = create_key-shown platform gateway offline network_error refl named no_key
