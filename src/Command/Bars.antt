-- ===== src/Command/Bars.antt =====
-- The markup of the two bars of the command center,
-- frontend/dashboard/src/components/CommandCenter/Navbar.tsx and AIInsightsTicker.tsx.
use surakshanet.Base.{
  ◌≡◌, refl, String, Bool, true, false, not, List, [], ◌∷◌, ◌++◌, map, str_eq, if◌then◌else◌,
}
use surakshanet.Markup.{Mark, text, icon, tone, Item, mark, button, marks, offered}
use surakshanet.Command.Deck.{
  CommandTab, overview, live_map, traffic_ai, signal_control, incidents, analytics, same_tab,
}
use surakshanet.Command.Rotation.{Insight}

pub data Click : Type 0 where
  navigates_home toggles_notifications : Click
  changes_tab : CommandTab → Click

abbrev pub tabs : List CommandTab
tabs = overview ∷ live_map ∷ traffic_ai ∷ signal_control ∷ incidents ∷ analytics ∷ []

abbrev pub tab_label : CommandTab → String
tab_label overview = "Overview"
tab_label live_map = "Live Map"
tab_label traffic_ai = "Traffic AI"
tab_label signal_control = "Signal Control"
tab_label incidents = "Incidents"
tab_label analytics = "Analytics"

abbrev pub tab_icon : CommandTab → String
tab_icon overview = "Layers"
tab_icon live_map = "Map"
tab_icon traffic_ai = "Camera"
tab_icon signal_control = "SlidersHorizontal"
tab_icon incidents = "AlertTriangle"
tab_icon analytics = "BarChart3"

-- `tab.badge`, which only the incidents have.
abbrev pub tab_badge : CommandTab → List Mark
tab_badge incidents = text "2" ∷ []
tab_badge _ = []

abbrev pub tab_button : CommandTab → CommandTab → Item Click
tab_button active_tab tab = button false (changes_tab tab) (
    tone (
      if same_tab active_tab tab
      then "bg-white text-studio-coralDark shadow-sm font-extrabold border border-studio-pink/40"
      else "text-studio-text/70 hover:text-studio-coral hover:bg-white/60")
    ∷ icon (tab_icon tab)
    ∷ tone (if same_tab active_tab tab then "text-studio-coral" else "")
    ∷ text (tab_label tab)
    ∷ tab_badge tab)

-- The same tabs once more, for small screens.
abbrev pub mobile_button : CommandTab → CommandTab → Item Click
mobile_button active_tab tab = button false (changes_tab tab) (
    tone (
      if same_tab active_tab tab
      then "bg-studio-coral text-white font-bold"
      else "text-studio-text/70")
    ∷ text (tab_label tab)
    ∷ [])

abbrev pub notifications : List Mark
notifications =
    text "Real-Time Incident Notifications"
    ∷ text "Accident on NH-52"
    ∷ text "Intersection 08 · Ambulances routed"
    ∷ text "Congestion Spike: Lane 01"
    ∷ text "A-102 Signal extended by 18s"
    ∷ []

abbrev pub brand : Item Click
brand =
    button false navigates_home
      (text "✻" ∷ text "Suraksha One.Zer°" ∷ text "INTELLIGENT MOBILITY OPS" ∷ [])

-- With whether the notifications are shown.
unfoldable pub navbar : CommandTab → Bool → List (Item Click)
navbar active_tab show_notifications =
    brand ∷ map (tab_button active_tab) tabs
    ++ (mark (text "SYSTEM ONLINE")
          ∷ button false navigates_home (text "Studio" ∷ icon "ArrowUpRight" ∷ [])
          ∷ button false toggles_notifications (icon "Bell" ∷ [])
          ∷ marks (if show_notifications then notifications else [])
        ++ (marks (text "OP" ∷ text "Commander Sharma" ∷ text "AUTH: LEVEL-4" ∷ [])
            ++ map (mobile_button active_tab) tabs))

unfoldable pub toggle_notifications : Bool → Bool
toggle_notifications show_notifications = not show_notifications

abbrev pub insight_tone : String → String
insight_tone kind =
    if str_eq kind "warning"
    then "bg-amber-100 text-amber-900 border border-amber-300"
    else if str_eq kind "danger"
    then "bg-red-100 text-red-900 border border-red-300"
    else if str_eq kind "success"
    then "bg-emerald-100 text-emerald-900 border border-emerald-300"
    else "bg-studio-bg text-studio-coralDark border border-studio-pink"

-- The ticker, with the insight that is shown.
unfoldable pub ticker : Insight → List Mark
ticker i =
    text "✻"
    ∷ text "AI TRAFFIC INTELLIGENCE"
    ∷ text "Live Cognitive Stream"
    ∷ tone (insight_tone i.kind)
    ∷ text i.category
    ∷ text i.text
    ∷ text i.impact
    ∷ text i.timestamp
    ∷ []

-- Whatever tab is shown, and whether the notifications are, the bar offers all six tabs.
pub offered-navbar :
    (active_tab : CommandTab) (show_notifications : Bool)
    → offered (navbar active_tab show_notifications)
      ≡ navigates_home ∷ map changes_tab tabs
        ++ (navigates_home ∷ toggles_notifications ∷ map changes_tab tabs)
unfolding navbar offered
offered-navbar active_tab true = refl
offered-navbar active_tab false = refl
