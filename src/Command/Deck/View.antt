-- ===== src/Command/Deck/View.antt =====
-- The markup of frontend/dashboard/src/pages/CommandCenterPage.tsx, made of that of its parts, and what
-- each tab offers to be clicked. The canvas is shown by its texts; what it draws is Canvas/Drawing.
use surakshanet.Base.{
  ℕ, ◌≡◌, refl, String, Bool, true, false, Option, none, some, List, [], ◌∷◌, ◌++◌, map, any,
  Bool-cases, inl, inr, arith,
}
use surakshanet.Markup.{
  Mark, text, icon, tone, Item, button, marks, relabel, offered, offered-append, offered-relabel,
}
use surakshanet.Command.Bars
use surakshanet.Command.Bars.{navbar, ticker, offered-navbar}
use surakshanet.Command.Rotation.{Insight}
use surakshanet.Command.Optimizer
use surakshanet.Command.Optimizer.View as Control
use surakshanet.Command.Incidents.{IncidentItem, Filter}
use surakshanet.Command.Incidents.View as Stream
use surakshanet.Command.Camera.{Feed}
use surakshanet.Command.Camera.View as Vision
use surakshanet.Command.Intersections.Window as Window
use surakshanet.Command.Deck.{
  CommandTab, overview, live_map, traffic_ai, signal_control, incidents, analytics, Page, same_tab,
  set_active_tab,
}
use surakshanet.Command.Deck.Windows.{window_of}
use surakshanet.Command.Deck.Dashboard.{dashboard}

pub data Click : Type 0 where
  bar : Bars.Click → Click
  control : Control.Click → Click
  window : Window.Click → Click
  incident : Stream.Click → Click
  camera : Vision.Click → Click
  expands : Click

-- The page with what its parts keep for themselves.
pub record Screen : Type 0 where
  pub page : Page
  pub show_notifications : Bool
  pub insight : Insight
  pub filter : Filter
  pub incidents : List IncidentItem
  pub feed : Feed

-- The texts of CityTrafficCanvas.tsx over its drawing.
unfoldable pub canvas_overlay : List Mark
canvas_overlay =
    text "Live Network Grid (City Scale)"
    ∷ tone "bg-studio-coral"
    ∷ text "Heavy (Lane 1)"
    ∷ tone "bg-amber-500"
    ∷ text "Moderate (Lane 2)"
    ∷ tone "bg-emerald-500"
    ∷ text "Smooth (Lane 3)"
    ∷ text "COORDINATES:"
    ∷ text "28.6139° N, 77.2090° E"
    ∷ text "CONNECTED NODES:"
    ∷ text "150/150 ONLINE"
    ∷ []

-- Whether a click leads to a tab.
abbrev pub goes_to : CommandTab → Click → Bool
goes_to tab (bar (Bars.changes_tab other)) = same_tab other tab
goes_to tab _ = false

same_tab-eq : (a b : CommandTab) → same_tab a b ≡ true → a ≡ b
same_tab-eq a b h = ground arith

module _ (to_text locale tenths : ℕ → String) where
  abbrev control_view : Option Optimizer.State → List (Item Click)
  control_view none = []
  control_view (some c) = map (relabel control) (Control.view to_text c)

  abbrev map_view : Page → List (Item Click)
  map_view p = marks canvas_overlay ++ map (relabel window) (window_of to_text locale p)

  abbrev camera_view : Feed → List (Item Click)
  camera_view f = map (relabel camera) (Vision.view tenths f)

  abbrev incidents_view : Screen → List (Item Click)
  incidents_view s = map (relabel incident) (Stream.view to_text s.filter s.incidents)

  abbrev expand_button : Item Click
  expand_button = button false expands (text "Expand Full Map →" ∷ [])

  unfoldable pub overview_view : Screen → List (Item Click)
  overview_view s =
      marks (
        icon "SlidersHorizontal"
        ∷ text "Primary Showcase: Closed-Loop AI Signal Optimization"
        ∷ text "DEMO INTERACTION READY"
        ∷ [])
      ++ (control_view s.page.control
          ++ (marks (icon "Map" ∷ text "Metropolitan Traffic Density Matrix" ∷ [])
              ++ (expand_button ∷ map_view s.page
                  ++ (camera_view s.feed ++ (incidents_view s ++ marks dashboard)))))

  unfoldable pub live_map_view : Page → List (Item Click)
  live_map_view p =
      marks (
        text "Live Metropolitan Traffic Map"
        ∷ text
            "Select any intersection or lane to view real-time density, camera feeds, and signal cycles."
        ∷ [])
      ++ map_view p

  abbrev pub tab_view : CommandTab → Screen → List (Item Click)
  tab_view overview s = overview_view s
  tab_view live_map s = live_map_view s.page
  tab_view traffic_ai s = camera_view s.feed
  tab_view signal_control s = control_view s.page.control
  tab_view incidents s = incidents_view s
  tab_view analytics s = marks dashboard

  unfoldable pub view : Screen → List (Item Click)
  view s =
      map (relabel bar) (navbar s.page.active_tab s.show_notifications)
      ++ (marks (ticker s.insight) ++ tab_view s.page.active_tab s)

  any-append : (f : Click → Bool) (xs ys : List Click) → any f xs ≡ true → any f (xs ++ ys) ≡ true
  any-append f [] ys h = cc
  any-append f (x ∷ xs) ys h = ground (arith, any-append f xs ys)

  bar_goes_to :
      (tab : CommandTab) (active : CommandTab) (show_notifications : Bool)
      → any (goes_to tab) (map bar (offered (navbar active show_notifications))) ≡ true
  bar_goes_to overview active b = rw (offered-navbar active b) refl
  bar_goes_to live_map active b = rw (offered-navbar active b) refl
  bar_goes_to traffic_ai active b = rw (offered-navbar active b) refl
  bar_goes_to signal_control active b = rw (offered-navbar active b) refl
  bar_goes_to incidents active b = rw (offered-navbar active b) refl
  bar_goes_to analytics active b = rw (offered-navbar active b) refl

  set_active_tab_lem : (tab : CommandTab) (p : Page) → (set_active_tab tab p).active_tab ≡ tab
  unfolding set_active_tab
  set_active_tab_lem tab p = elim (Bool-cases (same_tab p.active_tab tab)) [
    | inl same ↦ rw same (same_tab-eq p.active_tab tab same)
    | inr other ↦ rw other refl
  ]

  -- Whatever the page and its parts show, a button is enabled that leads to any of the six tabs, and
  -- clicking it leads there.
  pub tab_reachable :
      (tab : CommandTab) (s : Screen)
      → (any (goes_to tab) (offered (view s)) ≡ true)
        × ((set_active_tab tab s.page).active_tab ≡ tab)
  unfolding view
  tab_reachable tab s =
      let top = navbar s.page.active_tab s.show_notifications in
      let below = marks (ticker s.insight) ++ tab_view s.page.active_tab s in
      (
        rw (offered-append (map (relabel bar) top) below, offered-relabel bar top)
            (any-append (goes_to tab) (map bar (offered top)) (offered below)
              (bar_goes_to tab s.page.active_tab s.show_notifications)),
        set_active_tab_lem tab s.page,
      )
