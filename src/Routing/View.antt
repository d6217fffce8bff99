-- ===== src/Routing/View.antt =====
-- The markup of frontend/dashboard/src/pages/RoutingPage.tsx. What is shown of a route, the texts that are
-- typed in and their lengths are arguments.
use surakshanet.Base.{
  String, ◌<>◌, false, Option, none, some, List, [], ◌∷◌, ◌++◌, map, str_eq, if◌then◌else◌,
}
use surakshanet.Stores.Types.{Junction}
use surakshanet.Markup.{Mark, text, icon, tone, Item, mark, button, marks}
use surakshanet.Routing.{BroadcastItem, Page}

pub data Click : Type 0 where
  starts_at ends_at targets ranks : String → Click
  calculates broadcasts : Click

-- What the page reads of a route; a part that is missing or empty is none.
pub record Shown : Type 0 where
  pub congestion_level : Option String
  pub distance : Option String
  pub duration : Option String
  pub path : Option String

abbrev pub given : String → Option String → String
given d none = d
given d (some t) = t

-- The options of a selection of junctions, with what stands in for an empty store.
abbrev pub options :
    {F : Type 0} → (String → Click) → String → List (Junction F) → List (Item Click)
options choose missing [] = button false (choose missing) (text missing ∷ []) ∷ []
options choose missing (j ∷ js) = map (λ k. button false (choose k.id) (text k.name ∷ [])) (j ∷ js)

unfoldable pub optimizer : {F D : Type 0} → List (Junction F) → Page D → List (Item Click)
optimizer store p =
    marks (
      text "Dynamic Routing & VMS"
      ∷ text "A* Pathfinding and Variable Message Sign live gantry broadcast"
      ∷ text "Corridor Route Optimizer"
      ∷ text "Origin Node"
      ∷ [])
    ++ (options starts_at "Connaught Place Outer Circle" store
        ++ (mark (text "Destination Node") ∷ options ends_at "Ashram Chowk - Mathura Road" store
            ++ (button p.is_calculating calculates (
                  if p.is_calculating
                  then text "Calculating A* Optimal Route..." ∷ []
                  else icon "Search" ∷ text "Calculate Optimal Corridor" ∷ [])
                ∷ [])))

-- `routeResult.path && …`
abbrev pub path_marks : Option String → List Mark
path_marks none = []
path_marks (some path) = text "Junction Sequence:" ∷ text path ∷ []

unfoldable pub result : Option Shown → List Mark
result none = []
result (some r) =
    text "A* Recommended Path"
    ∷ text (given "OPTIMAL FLOW" r.congestion_level)
    ∷ text "Distance"
    ∷ text (given "8.9" r.distance <> " km")
    ∷ text "Estimated Duration"
    ∷ text (given "12.4" r.duration <> " mins")
    ∷ path_marks r.path

-- `line || missing`
abbrev pub line_or : String → String → String
line_or missing line = if str_eq line "" then missing else line

unfoldable pub board : {D : Type 0} → Page D → List Mark
board p =
    text "VMS LED Gantry Broadcaster"
    ∷ text "Live Gantries Connected"
    ∷ text "VMS MATRIX PANEL (AMBER LED)"
    ∷ text ("CLUSTER: " <> p.cluster)
    ∷ text (line_or "--- EMPTY LINE 1 ---" p.line1)
    ∷ text (line_or "--- EMPTY LINE 2 ---" p.line2)
    ∷ text "● STATUS: BROADCAST SYNC OK"
    ∷ []

abbrev pub cluster_option : String → Item Click
cluster_option cluster = button false (targets cluster) (text cluster ∷ [])

abbrev pub rank_option : String → Item Click
rank_option priority = button false (ranks priority) (text priority ∷ [])

-- With the lengths of the lines as texts.
unfoldable pub controls : {D : Type 0} → (String → String) → Page D → List (Item Click)
controls length_of p =
    mark (text "Target Cluster")
    ∷ cluster_option "Cluster A (North Corridor) [4 Panels]"
    ∷ cluster_option "Cluster B (South Corridor) [2 Panels]"
    ∷ cluster_option "Highway Gantry Ring Road [1 Panel]"
    ∷ cluster_option "All Zones [City Broadcast]"
    ∷ mark (text "Priority")
    ∷ rank_option "NORMAL"
    ∷ rank_option "HIGH"
    ∷ rank_option "CRITICAL"
    ∷ mark (text ("Message Line 1 (" <> (length_of p.line1 <> "/24)")))
    ∷ mark (text p.line1)
    ∷ mark (text ("Message Line 2 (" <> (length_of p.line2 <> "/24)")))
    ∷ mark (text p.line2)
    ∷ button false broadcasts (icon "Send" ∷ text "Broadcast to LED Gantries" ∷ [])
    ∷ []

abbrev pub status_tone : String → String
status_tone status =
    if str_eq status "ACTIVE"
    then "bg-emerald-100 text-emerald-700"
    else "bg-slate-200 text-slate-600"

abbrev pub broadcast_marks : List BroadcastItem → List Mark
broadcast_marks [] = []
broadcast_marks (b ∷ bs) =
    text (b.line1 <> (" / " <> b.line2))
    ∷ text b.panel_cluster
    ∷ tone (status_tone b.status)
    ∷ text b.status
    ∷ text b.time
    ∷ broadcast_marks bs

unfoldable pub history : List BroadcastItem → List Mark
history bs = icon "Clock" ∷ text "Active Corridor Broadcasts" ∷ broadcast_marks bs

unfoldable pub view :
    {F D : Type 0}
    → (String → String)
    → Option Shown
    → List (Junction F)
    → Page D
    → List (Item Click)
view length_of route store p =
    optimizer store p
    ++ (marks (result route)
        ++ (marks (board p) ++ (controls length_of p ++ marks (history p.broadcasts))))
