-- ===== src/Detail/View.antt =====
-- The markup of frontend/dashboard/src/pages/JunctionDetailPage.tsx. What the page reads of its junction
-- and its plan, which may be missing, is given as options.
use surakshanet.Base.{
  ℕ, String, ◌<>◌, false, Option, none, some, List, [], ◌∷◌, ◌++◌, str_eq, ◌==◌, if◌then◌else◌,
}
use surakshanet.Markup.{Mark, text, icon, tone, bar, Item, button, marks}
use surakshanet.Detail.{
  ApproachDirection, north, east, south, west, Status, normal, flowing, congested, high_vol, Share,
  ApproachData,
}

pub data Click : Type 0 where
  goes_back : Click
  acts : String → Click

-- `a || b` on texts and on numbers that may be missing.
abbrev pub text_or : String → Option String → String
text_or d none = d
text_or d (some t) = if str_eq t "" then d else t

abbrev pub number_or : ℕ → Option ℕ → ℕ
number_or d none = d
number_or d (some n) = if n == 0 then d else n

unfoldable pub header : Option String → Option String → List (Item Click)
header name id =
    button false goes_back (icon "ChevronLeft" ∷ text " Back to Network" ∷ [])
    ∷ (marks (
          text (text_or "Connaught Place Outer Circle" name)
          ∷ text "LIVE TELEMETRY"
          ∷ text ("NODE-ID: " <> text_or "DEL-CP-01" id)
          ∷ [])
        ++ (button false (acts "sync") (icon "RefreshCw" ∷ text "Sync Config" ∷ [])
            ∷ button false (acts "flash") (icon "AlertTriangle" ∷ text "Flash All-Red" ∷ [])
            ∷ []))

abbrev pub camera : List Mark
camera =
    icon "Video"
    ∷ text "Edge Camera 01 (North Approach)"
    ∷ text "30 FPS"
    ∷ text "YOLOv8 Edge Neural Net"
    ∷ text "● CAM_01_FEED_ONLINE"
    ∷ text "CAR 0.94"
    ∷ text "BUS 0.89"
    ∷ text "2W 0.92"
    ∷ text "AUTO 0.87"
    ∷ text "[ LIVE RTSP STREAM — ON-DEVICE PCU INFERENCE ACTIVE ]"
    ∷ []

-- With the mode and the length of the cycle of the plan, and the countdown.
unfoldable pub phases : (ℕ → String) → Option String → Option ℕ → ℕ → List Mark
phases to_text mode cycle countdown =
    text "Adaptive Phase Visualizer"
    ∷ text ("Mode: " <> text_or "MARL Dynamic AI" mode)
    ∷ text ("Cycle: " <> (to_text (number_or 120 cycle) <> "s"))
    ∷ text "Phase 1: North-South Straight"
    ∷ text (to_text countdown <> "s")
    ∷ text "Green Hold"
    ∷ text "North Approach: Green (35s Split)"
    ∷ text "South Approach: Green (35s Split)"
    ∷ text "East Approach: Red Hold"
    ∷ text "West Approach: Red Hold"
    ∷ []

abbrev pub hardware : List Mark
hardware =
    icon "Cpu"
    ∷ text "Edge Compute Hardware"
    ∷ text "ONLINE"
    ∷ text "DEVICE: NVIDIA Jetson Orin AGX (32GB)"
    ∷ text "EDGE-IP: 192.168.10.42"
    ∷ text "GPU Temperature"
    ∷ text "54°C"
    ∷ bar 54
    ∷ text "Inference Latency"
    ∷ text "33.2 ms"
    ∷ bar 33
    ∷ text "Memory Allocated (32GB)"
    ∷ text "14.8 GB (46%)"
    ∷ bar 46
    ∷ text "MQTT Ping"
    ∷ text "12 ms"
    ∷ text "Uplink Rate"
    ∷ text "4.2 Mbps"
    ∷ []

abbrev pub direction_text : ApproachDirection → String
direction_text north = "NORTH"
direction_text east = "EAST"
direction_text south = "SOUTH"
direction_text west = "WEST"

abbrev pub status_text : Status → String
status_text normal = "NORMAL"
status_text flowing = "FLOWING"
status_text congested = "CONGESTED"
status_text high_vol = "HIGH_VOL"

abbrev pub status_tone : Status → String
status_tone flowing = "bg-emerald-50 text-emerald-700"
status_tone congested = "bg-red-50 text-red-700"
status_tone high_vol = "bg-amber-50 text-amber-700"
status_tone normal = "bg-slate-100 text-slate-700"

-- The bars of the shares, with their titles.
abbrev pub share_marks : (ℕ → String) → List Share → List Mark
share_marks to_text [] = []
share_marks to_text (b ∷ bs) =
    tone b.color
    ∷ bar b.percent
    ∷ text (b.kind <> (": " <> (to_text b.percent <> "%")))
    ∷ share_marks to_text bs

unfoldable pub approach : (ℕ → String) → ApproachData → List Mark
approach to_text app =
    text app.label
    ∷ text ("Approach " <> direction_text app.direction)
    ∷ tone (status_tone app.status)
    ∷ text (status_text app.status)
    ∷ text "Flow Rate"
    ∷ text (to_text app.pcu)
    ∷ text "PCU/h"
    ∷ text ("Spd: " <> (to_text app.speed <> " km/h"))
    ∷ text ("Que: " <> (to_text app.queue_length <> "m"))
    ∷ share_marks to_text app.breakdown

abbrev pub approaches_marks : (ℕ → String) → List ApproachData → List Mark
approaches_marks to_text [] = []
approaches_marks to_text (app ∷ apps) = approach to_text app ++ approaches_marks to_text apps

-- With the name of the junction, the id of the route, the mode and the cycle of the plan.
unfoldable pub view :
    (ℕ → String)
    → Option String
    → Option String
    → Option String
    → Option ℕ
    → ℕ
    → List ApproachData
    → List (Item Click)
view to_text name id mode cycle countdown approaches =
    header name id
    ++ (marks camera
        ++ (marks (phases to_text mode cycle countdown)
            ++ (marks hardware
                ++ marks (
                    text "Approach Lane Telemetry & PCU Split"
                    ∷ approaches_marks to_text approaches))))
