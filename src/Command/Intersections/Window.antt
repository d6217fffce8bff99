-- ===== src/Command/Intersections/Window.antt =====
-- The markup of frontend/dashboard/src/components/CommandCenter/IntersectionModal.tsx, the window of a
-- junction, with the texts of numbers as arguments.
use surakshanet.Base.{
  ℕ, suc, ◌==◌, String, ◌<>◌, Bool, false, ◌&&◌, Option, none, some, List, [], ◌∷◌, ◌++◌, ltb,
  str_eq, if◌then◌else◌,
}
use surakshanet.Markup.{Mark, text, icon, tone, Item, mark, button, marks}
use surakshanet.Command.Intersections.{
  Level, critical, moderate, smooth, AiStatus, optimizing, active, standby, Signal, red, yellow,
  green, Lane, IntersectionData,
}

pub data Click : Type 0 where
  closes : Click
  optimizes : String → Click

abbrev pub level_text : Level → String
level_text critical = "CRITICAL"
level_text moderate = "MODERATE"
level_text smooth = "SMOOTH"

abbrev pub level_tone : Level → String
level_tone critical = "bg-red-100 text-red-700 border border-red-300"
level_tone moderate = "bg-amber-100 text-amber-800 border border-amber-300"
level_tone smooth = "bg-emerald-100 text-emerald-800 border border-emerald-300"

abbrev pub ai_text : AiStatus → String
ai_text optimizing = "OPTIMIZING"
ai_text active = "ACTIVE"
ai_text standby = "STANDBY"

abbrev pub signal_text : Signal → String
signal_text red = "RED"
signal_text yellow = "YELLOW"
signal_text green = "GREEN"

abbrev pub dot_tone : Signal → String
dot_tone red = "bg-studio-coral"
dot_tone yellow = "bg-amber-400"
dot_tone green = "bg-emerald-500"

abbrev pub signal_tone : Signal → String
signal_tone red = "bg-red-100 text-red-700"
signal_tone yellow = "bg-amber-100 text-amber-800"
signal_tone green = "bg-emerald-100 text-emerald-800"

unfoldable pub is_current_optimized : Bool → IntersectionData → Bool
is_current_optimized is_optimized i = str_eq i.id "A-102" && is_optimized

-- The upper part: `optimized` says whether the junction is, and `locale` is `toLocaleString`.
unfoldable pub metrics : (ℕ → String) → (ℕ → String) → Bool → IntersectionData → List Mark
metrics to_text locale optimized i =
    text "Vehicles Detected"
    ∷ text (locale (if optimized then 480 else i.vehicles))
    ∷ text "YOLOv8 Edge Tracking"
    ∷ text "Avg Approach Speed"
    ∷ text (to_text (if optimized then 42 else i.speed))
    ∷ text "km/h"
    ∷ text "Radar Telemetry"
    ∷ text "Signal Cycle"
    ∷ text (to_text i.cycle)
    ∷ text "sec"
    ∷ text "Dynamic Web-Time"
    ∷ text "AI Controller"
    ∷ icon "Cpu"
    ∷ text (if optimized then "STABILIZED" else ai_text i.ai_status)
    ∷ text "MARL Agent Active"
    ∷ []

-- One lane, with its index.
unfoldable pub lane_marks : (ℕ → String) → Bool → ℕ → Lane → List Mark
lane_marks to_text optimized idx lane =
    let lane_traffic = (if optimized && idx == 0 then 24 else lane.traffic) in
    let lane_signal = (if optimized && idx == 0 then green else lane.signal) in
    tone (dot_tone lane_signal)
    ∷ text lane.id
    ∷ tone (
        if ltb 70 lane_traffic
        then "text-studio-coral font-black"
        else "text-studio-text font-bold")
    ∷ text (to_text lane_traffic <> "%")
    ∷ tone (signal_tone lane_signal)
    ∷ text (signal_text lane_signal)
    ∷ []

abbrev pub lanes_from : (ℕ → String) → Bool → ℕ → List Lane → List Mark
lanes_from to_text optimized idx [] = []
lanes_from to_text optimized idx (lane ∷ lanes) =
    lane_marks to_text optimized idx lane ++ lanes_from to_text optimized (suc idx) lanes

unfoldable pub call_to_action : Bool → IntersectionData → List (Item Click)
call_to_action optimized i =
    if optimized
    then marks (icon "CheckCircle2" ∷ text "AI Optimized - Traffic Flow Balanced" ∷ [])
    else button false (optimizes i.id) (icon "Sliders" ∷ text "Optimize Intersection Signals" ∷ [])
      ∷ []

-- Everything, for a junction that is or is not optimized.
unfoldable pub window : (ℕ → String) → (ℕ → String) → Bool → IntersectionData → List (Item Click)
window to_text locale optimized i =
    let level = (if optimized then smooth else i.level) in
    mark (text ("NODE ID: " <> i.id))
    ∷ mark (tone (level_tone level))
    ∷ mark (text (level_text level))
    ∷ mark (text i.name)
    ∷ button false closes (icon "X" ∷ [])
    ∷ (marks (metrics to_text locale optimized i)
        ++ (marks (
              text "LANE TELEMETRY"
              ∷ text "DENSITY / STATUS"
              ∷ lanes_from to_text optimized 0 i.lanes)
            ++ call_to_action optimized i))

unfoldable pub view :
    (ℕ → String) → (ℕ → String) → Bool → Option IntersectionData → List (Item Click)
view to_text locale is_optimized none = []
view to_text locale is_optimized (some i) =
    window to_text locale (is_current_optimized is_optimized i) i
