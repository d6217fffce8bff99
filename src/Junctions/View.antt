-- ===== src/Junctions/View.antt =====
-- The markup of frontend/dashboard/src/pages/JunctionsPage.tsx.
use surakshanet.Base.{
  ℕ, String, ◌<>◌, Bool, true, false, List, [], ◌∷◌, ◌++◌, map, ltb, length, if◌then◌else◌,
}
use surakshanet.Markup.{Mark, text, icon, tone, Item, button, marks}
use surakshanet.Junctions.{
  Status, normal, congested, marl_active, offline, City, delhi_ncr, bangalore, sumo_twin,
  CuratedJunction, Wanted, all, only, same_city, status_badge, city_badge, city_name, total_count,
  marl_count, congested_count,
}

-- What can be clicked or chosen; the text that is searched is typed in and is not one of them.
pub data Click : Type 0 where
  opens_map : Click
  opens : String → Click
  shows_city : Wanted City → Click
  shows_status : Wanted Status → Click

abbrev pub banner : List (Item Click)
banner =
    marks (
      icon "Layers"
      ∷ text "Junction Directory & Signal Registry"
      ∷ text "INVENTORY"
      ∷ text
          "This page catalogs physical intersection nodes, their PCU capacity, queue lengths, and adaptive signal modes. "
      ∷ text "Looking for the Live Geospatial Simulation Map with vehicle tracking?"
      ∷ [])
    ++ (button false opens_map (icon "MapIcon" ∷ text "Open Live Traffic Map" ∷ []) ∷ [])

unfoldable pub figures : (ℕ → String) → List CuratedJunction → List Mark
figures to_text js =
    text "Cataloged Hubs"
    ∷ text (to_text (total_count js) <> " Nodes")
    ∷ text "Deduplicated Smart Signals"
    ∷ text "MARL Controlled"
    ∷ text (to_text (marl_count js) <> " Nodes")
    ∷ text "Dynamic RL Optimization"
    ∷ text "Congestion Alerts"
    ∷ text (to_text (congested_count js) <> " Alerting")
    ∷ text "Capacity Exceeded (>80%)"
    ∷ text "Edge Sensor Uplink"
    ∷ text "100%"
    ∷ text "All Jetson Fleets Nominal"
    ∷ []

abbrev pub same_tab : Wanted City → Wanted City → Bool
same_tab all all = true
same_tab (only c) (only d) = same_city c d
same_tab _ _ = false

abbrev pub tab_label : Wanted City → String
tab_label all = "All Intersections"
tab_label (only c) = city_name c

abbrev pub tab : Wanted City → Wanted City → Item Click
tab chosen t = button false (shows_city t) (
    tone (
      if same_tab chosen t
      then "bg-teal-600 text-white shadow-xs"
      else "bg-slate-50 text-slate-600 hover:bg-slate-100 hover:text-slate-900")
    ∷ text (tab_label t)
    ∷ [])

unfoldable pub filters :
    (ℕ → String) → String → Wanted City → List CuratedJunction → List (Item Click)
filters to_text search chosen shown =
    tab chosen all
    ∷ tab chosen (only delhi_ncr)
    ∷ tab chosen (only bangalore)
    ∷ tab chosen (only sumo_twin)
    ∷ (marks (
          text ("Showing " <> (to_text (length shown) <> " intersections"))
          ∷ icon "Search"
          ∷ text search
          ∷ [])
        ++ (button false (shows_status all) (text "All Signal Statuses" ∷ [])
            ∷ button false (shows_status (only normal)) (text "Normal Flow" ∷ [])
            ∷ button false (shows_status (only congested)) (text "Congested Warning" ∷ [])
            ∷ button false (shows_status (only marl_active)) (text "MARL AI Adaptive" ∷ [])
            ∷ []))

abbrev pub status_text : Status → String
status_text normal = "Normal"
status_text congested = "Congested"
status_text marl_active = "MARL Active"
status_text offline = "Offline"

-- A card, which is clicked as a whole.
unfoldable pub card : (ℕ → String) → CuratedJunction → Item Click
card to_text j = button false (opens j.id) (
    text j.code
    ∷ tone (city_badge j.city)
    ∷ text (city_name j.city)
    ∷ tone (status_badge j.status)
    ∷ text (status_text j.status)
    ∷ text j.name
    ∷ text "4-Way Smart Signal Intersection • Adaptive Actuation"
    ∷ text "Flow Rate"
    ∷ text (to_text j.pcu <> " PCU")
    ∷ text "Avg Speed"
    ∷ text (to_text j.speed <> " km/h")
    ∷ text "Queue"
    ∷ tone (if ltb 50 j.queue then "text-red-600" else "text-slate-800")
    ∷ text (to_text j.queue <> "m")
    ∷ text "View Camera & Phase Visualizer"
    ∷ icon "ArrowRight"
    ∷ [])

-- The page of the registry `js`, of which the filters leave `shown`.
unfoldable pub view :
    (ℕ → String)
    → String
    → Wanted City
    → List CuratedJunction
    → List CuratedJunction
    → List (Item Click)
view to_text search chosen js shown =
    banner
    ++ (marks (figures to_text js)
        ++ (filters to_text search chosen shown ++ map (card to_text) shown))
