-- ===== src/TrafficMap/View.antt =====
-- The markup of frontend/dashboard/src/pages/TrafficMapPage.tsx. The texts of numbers, of tenths and of
-- large numbers are arguments, and so is the clock; the layer of map tiles is left out.
use surakshanet.Base.{ℕ, String, ◌<>◌, false, List, [], ◌∷◌, ◌++◌, ltb, or_else, if◌then◌else◌}
use surakshanet.Markup.{Mark, text, icon, tone, Item, mark, button, marks}
use surakshanet.TrafficMap.{
  Status, normal, congested, Pin, Icon, zap, activity, alert_triangle, check_circle, FeedEvent,
  Page, marker_color,
}

-- The texts of a number, with its thousands separated, and of tenths.
pub record Format : Type 0 where
  pub plain : ℕ → String
  pub locale : ℕ → String
  pub tenths : ℕ → String

pub data Click : Type 0 where
  toggles_playing : Click

-- A marker: its radius and weight, its colour, and its popup.
pub record Marker (F : Type 0) : Type 0 where
  pub center : F × F
  pub radius : ℕ
  pub weight : ℕ
  pub color : String
  pub popup : List Mark

abbrev pub status_text : Status → String
status_text normal = "normal"
status_text congested = "congested"

abbrev pub badge_tone : Status → String
badge_tone congested = "bg-red-100 text-red-700"
badge_tone normal = "bg-emerald-100 text-emerald-700"

abbrev pub radius_of : Status → ℕ
radius_of congested = 11
radius_of normal = 9

abbrev pub weight_of : Status → ℕ
weight_of congested = 3
weight_of normal = 2

unfoldable pub popup_of : {F : Type 0} → Format → Pin F → List Mark
popup_of format j =
    text j.name
    ∷ text j.id
    ∷ text "FLOW"
    ∷ text (format.plain j.pcu)
    ∷ text "SPEED"
    ∷ text (format.tenths j.speed <> "k")
    ∷ text "QUEUE"
    ∷ tone (if ltb 40 j.queue then "text-red-600" else "text-emerald-600")
    ∷ text (format.plain j.queue <> "m")
    ∷ tone (badge_tone j.status)
    ∷ text (status_text j.status)
    ∷ (if j.is_marl then text "MARL Active" ∷ [] else [])

unfoldable pub marker : {F : Type 0} → Format → Pin F → Marker F
marker format j = record {
  center = (j.lat, j.lng);
  radius = radius_of j.status;
  weight = weight_of j.status;
  color = marker_color j.status j.is_marl;
  popup = popup_of format j;
}

unfoldable pub connection : {F : Type 0} → Format → Page F → List Mark
connection format p =
    tone (if p.is_twin_connected then "border-emerald-300" else "border-amber-300")
    ∷ tone (
        if p.is_twin_connected then "bg-emerald-500 animate-ping" else "bg-amber-500 animate-pulse")
    ∷ tone (if p.is_twin_connected then "text-emerald-700" else "text-amber-700")
    ∷ text "SUMO DIGITAL TWIN"
    ∷ text (
        if p.is_twin_connected
        then "STREAM: LIVE (Step " <> (format.plain (or_else p.last_step_received 0) <> ")")
        else "STANDALONE SIM")
    ∷ []

unfoldable pub metrics : {F : Type 0} → Format → Page F → List Mark
metrics format p =
    icon "Car"
    ∷ text "Active Vehicles"
    ∷ text (format.locale p.total_vehicles)
    ∷ tone "text-emerald-500"
    ∷ text "+2.4%"
    ∷ icon "Gauge"
    ∷ text "Corridor Speed"
    ∷ text (format.tenths p.avg_speed <> " km/h")
    ∷ icon "Activity"
    ∷ text "Network LOS"
    ∷ text p.network_los
    ∷ icon "ArrowRightLeft"
    ∷ text "Throughput"
    ∷ text (format.locale p.throughput <> " PCU/h")
    ∷ icon "AlertTriangle"
    ∷ text "Active Alerts"
    ∷ text (format.plain p.active_alerts <> " Critical")
    ∷ []

-- The panel on the left, with the text that is searched. Its three layers have no handler.
abbrev pub filters : String → List Mark
filters search_term =
    icon "Search"
    ∷ text "Network Filters"
    ∷ text search_term
    ∷ icon "Search"
    ∷ text "Status Overlays"
    ∷ icon "CheckCircle2"
    ∷ text "Congested Routes"
    ∷ icon "CheckCircle2"
    ∷ text "Emergency Corridors"
    ∷ icon "Siren"
    ∷ text "AI Control Systems"
    ∷ icon "Zap"
    ∷ text "MARL Adaptive Control"
    ∷ text
        "Decentralized Deep Q-Network actively minimizing queue wait-times across 12 smart nodes."
    ∷ text "Satellite"
    ∷ text "Light"
    ∷ text "Heatmap"
    ∷ []

abbrev pub icon_name : Icon → String
icon_name zap = "Zap"
icon_name activity = "Activity"
icon_name alert_triangle = "AlertTriangle"
icon_name check_circle = "CheckCircle2"

abbrev pub event_marks : FeedEvent → List Mark
event_marks event =
    tone event.bg
    ∷ icon (icon_name event.icon)
    ∷ tone event.color
    ∷ text event.title
    ∷ text event.desc
    ∷ text event.time
    ∷ []

abbrev pub events_marks : List FeedEvent → List Mark
events_marks [] = []
events_marks (event ∷ events) = event_marks event ++ events_marks events

unfoldable pub feed : List FeedEvent → List Mark
feed events = text "Live Telemetry Feed" ∷ text "10Hz LIVE" ∷ events_marks events

-- The bar at the bottom, with the clock. Two of its buttons have no handler.
unfoldable pub playback : {F : Type 0} → String → Page F → List (Item Click)
playback clock p =
    mark (text "LIVE OPS")
    ∷ mark (icon "SkipBack")
    ∷ button false toggles_playing (icon (if p.is_playing then "Pause" else "Play") ∷ [])
    ∷ mark (icon "SkipForward")
    ∷ mark (text clock)
    ∷ mark (text "1x LIVE")
    ∷ []

-- All but the markers.
unfoldable pub panels : {F : Type 0} → Format → String → String → Page F → List (Item Click)
panels format search_term clock p =
    marks (connection format p)
    ++ (marks (metrics format p)
        ++ (marks (filters search_term) ++ (marks (feed p.feed_events) ++ playback clock p)))
