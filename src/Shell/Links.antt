-- ===== src/Shell/Links.antt =====
-- The links of frontend/dashboard/src/components/Layout/Sidebar.tsx and Header.tsx, of the junction cards
-- and of the command center's bar. Icons are left out, and a path to navigate to is the list of its
-- segments.
use surakshanet.Base.{
  ℕ, String, Bool, true, false, not, ◌||◌, Option, none, some, List, [], ◌∷◌, ◌++◌, str_eq,
  starts_with, if◌then◌else◌,
}
use surakshanet.Stores.Types.{User, Role, admin, operator, viewer}
use surakshanet.Stores.Session.{Session, logout}
use surakshanet.Shell.Routes.{home}

pub record NavItem : Type 0 where
  pub name : String
  pub path : List String
  -- whether the path must match to its end
  pub end : Bool
  pub badge : Option ℕ

abbrev item : String → List String → NavItem
item name path = record { name = name; path = path; end = false; badge = none }

abbrev pub main_nav_items : List NavItem
main_nav_items =
    record (item "Live Traffic Map" home) { end = true }
    ∷ item "Junction Directory" ("app" ∷ "junctions" ∷ [])
    ∷ item "Signal Control" ("app" ∷ "signals" ∷ [])
    ∷ item "Forecasting" ("app" ∷ "forecasting" ∷ [])
    ∷ record (item "Emergency" ("app" ∷ "emergency" ∷ [])) { badge = some 1 }
    ∷ item "Routing" ("app" ∷ "routing" ∷ [])
    ∷ []

abbrev pub analytics_nav_items : List NavItem
analytics_nav_items =
    item "Analytics" ("app" ∷ "analytics" ∷ []) ∷ item "Emissions" ("app" ∷ "emissions" ∷ []) ∷ []

abbrev pub system_nav_items : List NavItem
system_nav_items =
    record (item "Alerts" ("app" ∷ "alerts" ∷ [])) { badge = some 5 }
    ∷ item "Edge Devices" ("app" ∷ "edge-devices" ∷ [])
    ∷ item "Simulation" ("app" ∷ "simulation" ∷ [])
    ∷ []

abbrev pub admin_nav_items : List NavItem
admin_nav_items =
    item "Users" ("app" ∷ "users" ∷ []) ∷ item "Settings" ("app" ∷ "settings" ∷ []) ∷ []

-- The four sections of the sidebar.
abbrev pub nav_items : List NavItem
nav_items = main_nav_items ++ (analytics_nav_items ++ (system_nav_items ++ admin_nav_items))

-- The card of a junction in pages/JunctionsPage.tsx, whose id has no slash.
abbrev pub junction_link : String → List String
junction_link id = "app" ∷ "junctions" ∷ id ∷ []

-- `navigate('/')`, which the bar of the command center does under the name "Studio".
abbrev pub studio_link : List String
studio_link = []

pub record Tab : Type 0 where
  pub label : String
  pub path : String

abbrev pub top_nav_tabs : List Tab
top_nav_tabs =
    record { label = "Network Map"; path = "/app" }
    ∷ record { label = "Analytics"; path = "/app/analytics" }
    ∷ record { label = "Reports"; path = "/app/analytics" }
    ∷ []

-- With `pathname` the path of the location, as a text.
unfoldable pub is_tab_active : String → String → Bool
is_tab_active pathname path =
    if str_eq path "/app"
    then str_eq pathname "/app" || str_eq pathname "/app/" || str_eq pathname "/app/dashboard"
    else starts_with pathname path

-- `user?.name || 'Operator'` and `user?.role || 'ADMIN'`.
unfoldable pub shown_name : Option User → String
shown_name none = "Operator"
shown_name (some u) = if str_eq u.name "" then "Operator" else u.name

abbrev pub role_text : Role → String
role_text admin = "ADMIN"
role_text operator = "OPERATOR"
role_text viewer = "VIEWER"

unfoldable pub shown_role : Option User → String
shown_role none = "ADMIN"
shown_role (some u) = role_text u.role

-- The header, with the session and where it navigates.
pub record Header : Type 0 where
  pub emergency_open : Bool
  pub user_menu_open : Bool
  pub session : Session
  pub location : List String

unfoldable pub open_emergency : Header → Header
open_emergency h = record h { emergency_open = true }

unfoldable pub toggle_user_menu : Header → Header
toggle_user_menu h = record h { user_menu_open = not h.user_menu_open }

-- A click beside the open menu.
unfoldable pub close_user_menu : Header → Header
close_user_menu h = record h { user_menu_open = false }

unfoldable pub settings_click : Header → Header
settings_click h = record h { user_menu_open = false; location = "app" ∷ "settings" ∷ [] }

unfoldable pub logout_click : Header → Header
logout_click h = record h {
  user_menu_open = false;
  session = logout h.session;
  location = "login" ∷ [];
}

-- `handleLogout` of the sidebar.
unfoldable pub handle_logout : Session → Session × List String
handle_logout s = (logout s, "login" ∷ [])
