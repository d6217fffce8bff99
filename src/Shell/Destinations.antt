-- ===== src/Shell/Destinations.antt =====
-- Where the links of the frame lead (frontend/dashboard/src/components/Layout and App.tsx).
use surakshanet.Base.{
  ℕ, ◌≡◌, refl, String, false, ◌&&◌, some, List, str_eq, str_eq_of_true, All, All-get, get_elem?,
  Bool-cases, inl, inr,
}
use surakshanet.Shell.Routes.{
  Page, shows, junction_detail, traffic_map, junctions, signals, forecasting, emergency, routing,
  analytics, emissions, alerts, edge_devices, simulation, users, settings, route,
}
use surakshanet.Shell.Links.{NavItem, nav_items, junction_link, is_tab_active}

-- A link that the router shows a page for, with no redirect.
abbrev pub Lands : List String → Type 0
Lands path = (page : Page) × (route path ≡ shows page)

pub every_item : All (λ (i : NavItem). Lands i.path) nav_items
unfolding route
every_item = (
  (traffic_map, refl),
  (
    (junctions, refl),
    (
      (signals, refl),
      (
        (forecasting, refl),
        (
          (emergency, refl),
          (
            (routing, refl),
            (
              (analytics, refl),
              (
                (emissions, refl),
                (
                  (alerts, refl),
                  (
                    (edge_devices, refl),
                    ((simulation, refl), ((users, refl), ((settings, refl), tt))),
                  ),
                ),
              ),
            ),
          ),
        ),
      ),
    ),
  ),
)

-- Every link of the sidebar is a route that shows a page with no redirect, and so is the card of every
-- junction, which shows the page of that junction.
links_lem :
    (i : ℕ) (item : NavItem) (id : String)
    → get_elem? nav_items i ≡ some item
    → Lands item.path × (route (junction_link id) ≡ shows (junction_detail id))
unfolding route
links_lem i item id e =
    (All-get (λ (i : NavItem). Lands i.path) nav_items i item every_item e, refl)

-- At no location are the tabs of the map and of the analytics both shown as active.
tabs_lem :
    (pathname : String)
    → (is_tab_active pathname "/app" && is_tab_active pathname "/app/analytics") ≡ false
unfolding is_tab_active
tabs_lem pathname = elim (Bool-cases (str_eq pathname "/app")) [
  | inl e ↦ rw (str_eq_of_true e) refl
  | inr e ↦ elim (Bool-cases (str_eq pathname "/app/")) [
    | inl f ↦ rw (str_eq_of_true f) refl
    | inr f ↦ elim (Bool-cases (str_eq pathname "/app/dashboard")) [
      | inl g ↦ rw (str_eq_of_true g) refl
      | inr g ↦ rw (e, f, g) refl
    ]
  ]
]
