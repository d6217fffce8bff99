-- ===== src/Shell/Routes.antt =====
-- The routes of frontend/dashboard/src/App.tsx. A path is the list of its segments,
-- spelled as the routes are, since the router itself takes no notice of case. The router takes the
-- most specific route that fits, so that the catch-all comes last; no route asks whether anybody is signed
-- in.
use surakshanet.Base.{
  ◌≡◌, refl, String, List, [], ◌∷◌, str_eq, if◌then◌else◌, Bool-cases, inl, inr, ◌⊎◌,
}

pub data Page : Type 0 where
  traffic_map junctions signals forecasting emergency routing analytics emissions alerts : Page
  edge_devices simulation users settings studio command login : Page
  junction_detail : String → Page

pub data Element : Type 0 where
  shows : Page → Element
  navigates : List String → Element

abbrev pub home : List String
home = "app" ∷ []

-- The routes below `/app` by their one segment, with the catch-all.
abbrev pub app_routes : List (String × Page)
app_routes =
    ("dashboard", traffic_map)
    ∷ ("junctions", junctions)
    ∷ ("signals", signals)
    ∷ ("forecasting", forecasting)
    ∷ ("emergency", emergency)
    ∷ ("routing", routing)
    ∷ ("analytics", analytics)
    ∷ ("emissions", emissions)
    ∷ ("alerts", alerts)
    ∷ ("edge-devices", edge_devices)
    ∷ ("simulation", simulation)
    ∷ ("users", users)
    ∷ ("settings", settings)
    ∷ []

-- The routes of one segment; `/dashboard` is a redirect like the catch-all.
abbrev pub top_routes : List (String × Page)
top_routes =
    ("app", traffic_map) ∷ ("studio", studio) ∷ ("command", command) ∷ ("login", login) ∷ []

-- `<Navigate to="/app" replace />` where no route fits.
abbrev pub pick : List (String × Page) → String → Element
pick [] s = navigates home
pick (r ∷ rs) s = if str_eq r.0 s then shows r.1 else pick rs s

unfoldable pub route : List String → Element
route [] = navigates home
route (s ∷ []) = pick top_routes s
route (s ∷ t ∷ []) = if str_eq s "app" then pick app_routes t else navigates home
route (s ∷ t ∷ u ∷ []) =
    if str_eq s "app"
    then if str_eq t "junctions" then shows (junction_detail u) else navigates home
    else navigates home
route (s ∷ t ∷ u ∷ v ∷ more) = navigates home

-- The page that is shown in the end, where at most one redirect is followed.
pub data Visit : List String → Page → Type 0 where
  direct : {path : List String} {page : Page} → route path ≡ shows page → Visit path page
  redirected :
      {path : List String} {page : Page}
      → route path ≡ navigates home
      → route home ≡ shows page
      → Visit path page

pick-cases :
    (rs : List (String × Page)) (s : String)
    → ((page : Page) × (pick rs s ≡ shows page)) ⊎ (pick rs s ≡ navigates home)
pick-cases [] s = inr refl
pick-cases (r ∷ rs) s = elim (Bool-cases (str_eq r.0 s)) [
  | inl e ↦ inl (r.1, rw e refl)
  | inr e ↦ rw e (pick-cases rs s)
]

route-cases :
    (path : List String)
    → ((page : Page) × (route path ≡ shows page)) ⊎ (route path ≡ navigates home)
unfolding route
route-cases [] = inr refl
route-cases (s ∷ []) = pick-cases top_routes s
route-cases (s ∷ t ∷ []) = elim (Bool-cases (str_eq s "app")) [
  | inl e ↦ rw e (pick-cases app_routes t)
  | inr e ↦ rw e (inr refl)
]
route-cases (s ∷ t ∷ u ∷ []) = elim (Bool-cases (str_eq s "app")) [
  | inl e ↦ elim (Bool-cases (str_eq t "junctions")) [
    | inl f ↦ rw (e, f) (inl (junction_detail u, refl))
    | inr f ↦ rw (e, f) (inr refl)
  ]
  | inr e ↦ rw e (inr refl)
]
route-cases (s ∷ t ∷ u ∷ v ∷ more) = inr refl

-- Every path leads to a page with at most one redirect, which is to the traffic map: the router never
-- runs in a circle and never shows nothing.
pub visit_lem : (path : List String) → (page : Page) × Visit path page
unfolding route
visit_lem path = elim (route-cases path) [
  | inl (page, e) ↦ (page, direct e)
  | inr e ↦ (traffic_map, redirected e refl)
]
