-- ===== src/Pages/Navbar.antt =====
-- `Navbar`, web/src/components/navbar.tsx: the user that it shows, signing out, and when it is visible.
pub mod Visible
pub mod Auth
pub mod Tests
use arcops.Prelude.{
  ℕ, String, Bool, true, false, not, ◌&&◌, ◌||◌, Option, none, some, ltb, leb, ◌==◌, if◌then◌else◌,
}
use arcops.Js.Json.{Json, null}
use arcops.Js.Exec.{pure, ◌>>◌}
use arcops.Js.World.{World, Storage, set_local, remove_local, dispatch_event}
use arcops.Js.World.WebStorage.{get_item}
use arcops.Js.World.Session.{is_text, text_or, stored_user}
use arcops.Js.World.Object.{Object, Method, io, read, update}
use arcops.Web.Tenant.{Decoder}

-- The state of the bar, where the window is scrolled to, and the place that a scroll is compared with.
pub record Nav : Type 0 where
  pub is_sql_drawer_open : Bool
  pub is_profile_dropdown_open : Bool
  pub current_user : Json
  pub is_visible : Bool
  pub is_nav_hovered : Bool
  pub scroll_y : ℕ
  pub last_y : ℕ

-- The user in localStorage, or null where there is none or it does not parse.
abbrev value_or_null : Option Json → Json
value_or_null none = null
value_or_null (some v) = v

unfoldable pub saved_user : Decoder → Storage → Json
unfolding stored_user
saved_user d stored =
    if is_text (stored_user stored)
    then value_or_null (d.parse (text_or (stored_user stored) ""))
    else null

-- `handleAuthChange`
abbrev pub auth_change : Decoder → Object Nav → Object Nav
auth_change d o = record o { this = record o.this { current_user = saved_user d o.world.local } }

-- An event of the session, to which the bar itself listens.
abbrev dispatch : Decoder → String → Method Nav Unit
dispatch d event = do io (dispatch_event event); (λ o. pure tt (auth_change d o))

-- `handleLogout`
unfoldable pub handle_logout : Decoder → Method Nav Unit
unfolding saved_user
handle_logout d = do
  io (remove_local "arcauth_token")
  io (remove_local "authx_token")
  io (remove_local "arcauth_user")
  io (remove_local "authx_user")
  update λ p. record p { current_user = null }
  dispatch d "arcauth_login_success"
  dispatch d "authx_login_success"

-- What the text of the user of an OAuth redirect does, once it is stored; the bar does not listen to the
-- events yet.
abbrev pub greet : Option Json → Method Nav Unit
greet none = pure tt
greet (some user) = do
  update λ p. record p { current_user = user }
  io (dispatch_event "arcauth_login_success")
  io (dispatch_event "authx_login_success")

unfoldable pub take_texts : Decoder → String → String → Method Nav Unit
take_texts d token user = do
  io (set_local "arcauth_token" token)
  io (set_local "authx_token" token)
  io (set_local "arcauth_user" user)
  io (set_local "authx_user" user)
  greet (d.parse user)

-- The token and the user of the query of the URL, if it has both.
unfoldable pub take_params : Decoder → Storage → Method Nav Unit
unfolding get_item
take_params d query =
    if is_text (get_item query "token") && is_text (get_item query "user")
    then take_texts d (text_or (get_item query "token") "") (text_or (get_item query "user") "")
    else pure tt

-- The listeners are made anew when the pointer enters or leaves and when the menu opens or closes; a
-- scroll is then compared with where the window stands.
abbrev same : Bool → Bool → Bool
same true b = b
same false b = not b

unfoldable pub resubscribed : Nav → Nav → Nav
resubscribed p q =
    if same p.is_nav_hovered q.is_nav_hovered
      && same p.is_profile_dropdown_open q.is_profile_dropdown_open
    then q
    else record q { last_y = q.scroll_y }

-- `handleScroll`
unfoldable pub scrolled : Nav → ℕ → Nav
scrolled p y =
    if ltb y 20
    then record p { is_visible = true }
    else if ltb p.last_y y && ltb 80 y
    then (if not p.is_nav_hovered && not p.is_profile_dropdown_open
        then record p { is_visible = false }
        else p)
    else if ltb y p.last_y
    then record p { is_visible = true }
    else p

unfoldable pub handle_scroll : ℕ → Nav → Nav
unfolding scrolled
handle_scroll y p = record (scrolled p y) { scroll_y = y; last_y = y }

-- `handleMouseMove`, with the whole pixels of 35% of the height of the window
unfoldable pub handle_mouse_move : ℕ → ℕ → Nav → Nav
handle_mouse_move client_y top_threshold p =
    if p.is_nav_hovered || p.is_profile_dropdown_open
    then record p { is_visible = true }
    else record p { is_visible = leb client_y top_threshold }

-- `onMouseEnter` and `onMouseLeave`
unfoldable pub mouse_enter : Nav → Nav
unfolding resubscribed
mouse_enter p = resubscribed p (record p { is_nav_hovered = true; is_visible = true })

unfoldable pub mouse_leave : Nav → Nav
unfolding resubscribed
mouse_leave p =
    resubscribed p (record p { is_nav_hovered = false; is_profile_dropdown_open = false })

-- `handleClickOutside`, and the links of the menu
unfoldable pub close_dropdown : Nav → Nav
unfolding resubscribed
close_dropdown p = resubscribed p (record p { is_profile_dropdown_open = false })

-- The button of the profile
unfoldable pub click_profile : Nav → Nav
unfolding resubscribed
click_profile p =
    resubscribed p (record p { is_profile_dropdown_open = not p.is_profile_dropdown_open })

-- Whether the bar stands in the window and takes clicks.
abbrev pub shown : Nav → Bool
shown p = p.is_visible || (p.is_nav_hovered || p.is_profile_dropdown_open)
