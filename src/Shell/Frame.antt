-- ===== src/Shell/Frame.antt =====
-- The markup of frontend/dashboard/src/components/Layout: Sidebar.tsx, Header.tsx and DashboardLayout.tsx,
-- which holds the two. The icons of the links and the modal, which is Command/Modal, are left out. `is_active`
-- is what react-router says of a link, `segments` splits a path, and `clock` is the text of the time.
use surakshanet.Base.{
  ℕ, zero, suc, ◌≡◌, refl, String, Bool, true, false, Option, none, some, List, [], ◌∷◌, ◌++◌, map,
  if◌then◌else◌, All, All-append, All-get, get_elem?,
}
use surakshanet.Markup.{Mark, text, icon, tone, Item, mark, button, marks, offered, offered-append}
use surakshanet.Shell.Routes.{route, home, traffic_map, analytics, settings}
use surakshanet.Shell.Links.{
  NavItem, main_nav_items, analytics_nav_items, system_nav_items, admin_nav_items, nav_items, Tab,
  top_nav_tabs, is_tab_active, shown_name, shown_role, Header,
}
use surakshanet.Shell.Destinations.{Lands, every_item}

pub data Click : Type 0 where
  visits : List String → Click
  logs_out opens_emergency notifies toggles_menu closes_menu : Click

-- `item.badge != null && item.badge > 0`
abbrev pub badge_marks : (ℕ → String) → Bool → Option ℕ → List Mark
badge_marks to_text active none = []
badge_marks to_text active (some zero) = []
badge_marks to_text active (some (suc n)) =
    tone (if active then "bg-teal-600 text-white" else "bg-red-500 text-white")
    ∷ text (to_text (suc n))
    ∷ []

abbrev pub nav_link : (ℕ → String) → (NavItem → Bool) → NavItem → Item Click
nav_link to_text is_active item = button false (visits item.path) (
    tone (
      if is_active item
      then "bg-teal-50 text-teal-700 font-semibold"
      else "text-slate-600 hover:text-slate-900 hover:bg-slate-50")
    ∷ text item.name
    ∷ badge_marks to_text (is_active item) item.badge)

abbrev pub nav_section :
    (ℕ → String) → (NavItem → Bool) → List Mark → List NavItem → List (Item Click)
nav_section to_text is_active label items = marks label ++ map (nav_link to_text is_active) items

unfoldable pub sidebar : (ℕ → String) → (NavItem → Bool) → List (Item Click)
sidebar to_text is_active =
    button false (visits home) (icon "Shield" ∷ text "Surakshanet" ∷ text "Traffic Ops Center" ∷ [])
      ∷ mark (text "System Health: Optimal")
      ∷ nav_section to_text is_active [] main_nav_items
    ++ (nav_section to_text is_active (text "Insights" ∷ []) analytics_nav_items
        ++ (nav_section to_text is_active (text "System" ∷ []) system_nav_items
            ++ (nav_section to_text is_active (text "Admin" ∷ []) admin_nav_items
                ++ button false logs_out (icon "LogOut" ∷ text "Logout" ∷ []) ∷ [])))

abbrev pub tab_button : (String → List String) → String → Tab → Item Click
tab_button segments pathname tab = button false (visits (segments tab.path)) (
    tone (
      if is_tab_active pathname tab.path
      then "text-teal-700 bg-teal-50 font-bold border border-teal-200/60"
      else "text-slate-500 hover:text-teal-600 hover:bg-slate-50")
    ∷ text tab.label
    ∷ [])

-- The menu of the user, where it is open, with the area around it, which closes it.
abbrev pub user_menu : Bool → Header → List (Item Click)
user_menu false h = []
user_menu true h =
    button false closes_menu []
      ∷ marks (text (shown_name h.session.auth.user) ∷ text (shown_role h.session.auth.user) ∷ [])
    ++ (button false (visits ("app" ∷ "settings" ∷ [])) (icon "Settings" ∷ text "Settings" ∷ [])
        ∷ button false logs_out (icon "LogOut" ∷ text "Logout" ∷ [])
        ∷ [])

unfoldable pub header : (String → List String) → String → String → Header → List (Item Click)
header segments pathname clock h =
    mark (text "Surakshanet Ops") ∷ map (tab_button segments pathname) top_nav_tabs
    ++ (mark (icon "Search")
        ∷ button false opens_emergency (icon "AlertTriangle" ∷ text "Emergency Override" ∷ [])
        ∷ button false notifies (icon "Bell" ∷ [])
        ∷ mark (icon "Clock")
        ∷ mark (text clock)
        ∷ button false toggles_menu (icon "User" ∷ icon "ChevronDown" ∷ [])
        ∷ user_menu h.user_menu_open h)

-- The layout around a page, without the page.
unfoldable pub frame :
    (ℕ → String)
    → (NavItem → Bool)
    → (String → List String)
    → String
    → String
    → Header
    → List (Item Click)
frame to_text is_active segments pathname clock h =
    sidebar to_text is_active ++ header segments pathname clock h

-- What is relied on of the splitting of the two paths of the header's tabs.
pub record IsSplit (segments : String → List String) : Type 0 where
  pub app : segments "/app" ≡ home
  pub analytics : segments "/app/analytics" ≡ "app" ∷ "analytics" ∷ []

-- A click that leads to a page, leads to one with no redirect.
abbrev pub LandsAt : Click → Type 0
LandsAt (visits path) = Lands path
LandsAt logs_out = Unit
LandsAt opens_emergency = Unit
LandsAt notifies = Unit
LandsAt toggles_menu = Unit
LandsAt closes_menu = Unit

module _ (to_text : ℕ → String) (is_active : NavItem → Bool) where
  links-LandsAt :
      (items : List NavItem)
      → All (λ (i : NavItem). Lands i.path) items
      → All LandsAt (offered (map (nav_link to_text is_active) items))
  unfolding offered
  links-LandsAt [] h = tt
  links-LandsAt (i ∷ items) (h, hs) = (h, links-LandsAt items hs)

  sidebar-LandsAt : All LandsAt (offered (sidebar to_text is_active))
  unfolding sidebar offered route
  sidebar-LandsAt = (
    (traffic_map, refl),
    All-append LandsAt (offered (map (nav_link to_text is_active) nav_items)) (logs_out ∷ [])
        (links-LandsAt nav_items every_item) (tt, tt),
  )

tabs-LandsAt :
    (segments : String → List String) (pathname : String)
    → IsSplit segments
    → All LandsAt (offered (map (tab_button segments pathname) top_nav_tabs))
unfolding offered route
tabs-LandsAt segments pathname split =
    rw (split.app, split.analytics)
      ((traffic_map, refl), ((analytics, refl), ((analytics, refl), tt)))

menu-LandsAt : (shown : Bool) (h : Header) → All LandsAt (offered (user_menu shown h))
unfolding offered route
menu-LandsAt false h = tt
menu-LandsAt true h = (tt, ((settings, refl), (tt, tt)))

header-LandsAt :
    (segments : String → List String) (pathname clock : String) (h : Header)
    → IsSplit segments
    → All LandsAt (offered (header segments pathname clock h))
unfolding header offered
header-LandsAt segments pathname clock h split =
    All-append LandsAt (offered (map (tab_button segments pathname) top_nav_tabs))
      (opens_emergency ∷ notifies ∷ toggles_menu ∷ offered (user_menu h.user_menu_open h))
      (tabs-LandsAt segments pathname split) (tt, (tt, (tt, menu-LandsAt h.user_menu_open h)))

-- Whatever the frame of the application shows, every link that it offers to be clicked is a route that
-- shows a page, with no redirect.
pub offered-Lands :
    (to_text : ℕ → String) (is_active : NavItem → Bool) (segments : String → List String)
    (pathname clock : String) (h : Header) (i : ℕ) (path : List String)
    → IsSplit segments
    → get_elem? (offered (frame to_text is_active segments pathname clock h)) i ≡ some (visits path)
    → Lands path
unfolding frame
offered-Lands to_text is_active segments pathname clock h i path split e =
    let top = sidebar to_text is_active in
    let bar = header segments pathname clock h in
    All-get LandsAt (offered (top ++ bar)) i (visits path)
      (rw (offered-append top bar) (
        All-append LandsAt (offered top) (offered bar) (sidebar-LandsAt to_text is_active)
          (header-LandsAt segments pathname clock h split)))
      e
