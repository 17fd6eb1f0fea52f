-- ===== src/Pages/Navbar/Tests.antt =====
-- The bar on concrete inputs.
use arcops.Prelude.{◌≡◌, refl, true, false, none, some, [], ◌∷◌, ◌++◌, ◌||◌}
use arcops.Prelude.Steps.{Reaches, here, next}
use arcops.Js.Json.{str, null}
use arcops.Js.World.{Storage}
use arcops.Js.World.WebStorage.{get_item}
use arcops.Js.World.Object.{Object}
use arcops.Js.World.Sample.{world}
use arcops.Web.Session.{logout}
use arcops.Web.Tenant.{Decoder}
use arcops.Pages.Navbar.{
  Nav, handle_scroll, mouse_enter, mouse_leave, click_profile, shown, handle_logout,
}
use arcops.Pages.Navbar.Visible
use arcops.Pages.Navbar.Visible.{Step, IsSteady, Reaches-shown}
use arcops.Pages.Navbar.Auth.{handle_logout-outcome}

abbrev bar : Nav
bar = record {
  is_sql_drawer_open = false;
  is_profile_dropdown_open = false;
  current_user = str "7";
  is_visible = true;
  is_nav_hovered = false;
  scroll_y = 0;
  last_y = 0;
}

hides_test : shown (handle_scroll 100 bar) ≡ false
unfolding handle_scroll
hides_test = refl

-- The bar hides, and the menu is opened by keyboard.
moves : Reaches Step bar (click_profile (handle_scroll 100 (mouse_leave (mouse_enter bar))))
moves =
    next (next (next (next here Visible.enters) Visible.leaves) (Visible.scrolls 100))
      Visible.clicks

Reaches-shown_example :
    shown (click_profile (handle_scroll 100 (mouse_leave (mouse_enter bar)))) ≡ (
      (click_profile (handle_scroll 100 (mouse_leave (mouse_enter bar)))).is_visible
      || (click_profile
          (handle_scroll 100 (mouse_leave (mouse_enter bar)))).is_profile_dropdown_open)
Reaches-shown_example = Reaches-shown moves refl

-- No text is JSON here.
abbrev decoder : Decoder
decoder = record { parse = λ s. none; atob = λ s. none; decode_uri_component = λ s. none }

abbrev signed_in : Object Nav
signed_in = record { this = bar; world = world (("arcauth_token", "abc") ∷ []) [] }

handle_logout-outcome_example :
    ((handle_logout decoder signed_in).1.world.local ≡ (logout signed_in.world).1.local)
    × (((handle_logout decoder signed_in).1.this.current_user ≡ null)
        × (((handle_logout decoder signed_in).1.world.cookie ≡ signed_in.world.cookie)
            × ((handle_logout decoder signed_in).1.world.events
                ≡ signed_in.world.events ++ "arcauth_login_success" ∷ "authx_login_success" ∷ [])))
handle_logout-outcome_example = handle_logout-outcome decoder signed_in

abbrev query : Storage
query = ("token", "abc") ∷ ("user", "{") ∷ []

abbrev opened : Object Nav
opened = record { this = bar; world = world [] [] }

has_token : get_item query "token" ≡ some "abc"
unfolding get_item
has_token = refl

has_user : get_item query "user" ≡ some "{"
unfolding get_item
has_user = refl
