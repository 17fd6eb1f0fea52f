-- ===== src/Pages/Navbar/Visible.antt =====
-- When the bar is visible.
use arcops.Prelude.{ℕ, ◌≡◌, true, not, ◌||◌, arith}
use arcops.Prelude.Steps.{Reaches, Reaches-keeps}
use arcops.Pages.Navbar.{
  Nav, resubscribed, scrolled, handle_scroll, handle_mouse_move, mouse_enter, mouse_leave,
  close_dropdown, click_profile, shown,
}

-- What the user may do. The profile can be pressed by keyboard where the bar is hidden, too.
pub data Step : Nav → Nav → Type 0 where
  scrolls : {p : Nav} (y : ℕ) → Step p (handle_scroll y p)
  moves :
      {p : Nav} (client_y top_threshold : ℕ) → Step p (handle_mouse_move client_y top_threshold p)
  enters : {p : Nav} → Step p (mouse_enter p)
  leaves : {p : Nav} → Step p (mouse_leave p)
  closes : {p : Nav} → Step p (close_dropdown p)
  clicks : {p : Nav} → Step p (click_profile p)

-- While the pointer is over the bar, the flag of visibility is set.
abbrev pub IsSteady : Nav → Type 0
IsSteady p = (not p.is_nav_hovered || p.is_visible) ≡ true

Step-IsSteady : (p q : Nav) → Step p q → IsSteady p → IsSteady q
unfolding handle_scroll scrolled handle_mouse_move mouse_enter mouse_leave close_dropdown
    click_profile resubscribed
Step-IsSteady p q (scrolls y) h = ground (arith, h)
Step-IsSteady p q (moves client_y top_threshold) h = ground (arith, h)
Step-IsSteady p q enters h = ground (arith, h)
Step-IsSteady p q leaves h = ground (arith, h)
Step-IsSteady p q closes h = ground (arith, h)
Step-IsSteady p q clicks h = ground (arith, h)

shown-IsSteady : (p : Nav) → IsSteady p → shown p ≡ (p.is_visible || p.is_profile_dropdown_open)
shown-IsSteady p h = ground (arith, h)

-- However the user scrolls, moves the pointer and uses the menu, also by keyboard on a hidden bar: from
-- a state in which the flag of visibility is set while the pointer is over the bar, the bar is shown
-- exactly when that flag is set or the menu is open.
pub Reaches-shown :
    {p q : Nav}
    → Reaches Step p q
    → IsSteady p
    → shown q ≡ (q.is_visible || q.is_profile_dropdown_open)
Reaches-shown {q = q} run h = shown-IsSteady q (Reaches-keeps Step IsSteady Step-IsSteady run h)
