-- ===== src/Command/Optimizer/View.antt =====
-- The markup of frontend/dashboard/src/components/CommandCenter/SignalControlInteractive.tsx, and what it
-- offers to be clicked.
use surakshanet.Base.{
  ℕ, String, ◌<>◌, false, Option, none, some, List, [], ◌∷◌, ◌++◌, str_eq, if◌then◌else◌,
}
use surakshanet.Markup.{Mark, text, icon, tone, bar, Item, mark, button, marks, texts}
use surakshanet.Command.Optimizer.{State, lane1_density, lane1_signal, lane1_speed}

pub data Click : Type 0 where
  applies resets : Click

unfoldable pub header : State → List (Item Click)
header s =
    marks (
      tone (if s.is_optimized then "bg-emerald-100/40" else "bg-studio-pink/30")
      ∷ text "NODE ID: A-102"
      ∷ text "•"
      ∷ text "DOWNTOWN ARTERIAL CORRIDOR"
      ∷ text "Intelligent Signal Control"
      ∷ [])
    ++ ((if s.is_optimized
          then mark (text "MARL OPTIMIZED")
            ∷ button false resets (icon "RotateCcw" ∷ text "Reset Demo" ∷ [])
            ∷ []
          else [])
        ++ marks (icon "SlidersHorizontal" ∷ text "MODE: AUTONOMOUS MARL" ∷ []))

unfoldable pub first_lane : (ℕ → String) → State → List Mark
first_lane to_text s =
    tone (
      if s.is_optimized
      then "bg-emerald-50/70 border-emerald-300 shadow-sm"
      else "bg-red-50/60 border-red-200 shadow-sm")
    ∷ tone (
        if str_eq (lane1_signal s) "RED"
        then "bg-red-500 shadow-red-glow animate-pulse"
        else "bg-red-950 opacity-40")
    ∷ tone (
        if str_eq (lane1_signal s) "GREEN"
        then "bg-emerald-400 shadow-green-glow animate-pulse"
        else "bg-emerald-950 opacity-40")
    ∷ text "Lane 01 (Northbound Arterial)"
    ∷ ((if s.is_optimized then [] else text "BOTTLENECK" ∷ [])
        ++ text "Camera Feed: Cam-North-01"
          ∷ tone (if s.is_optimized then "text-emerald-600" else "text-red-600")
          ∷ text (to_text (lane1_density s) <> "%")
          ∷ text ("Avg: " <> (to_text (lane1_speed s) <> " km/h"))
          ∷ tone (
              if s.is_optimized
              then "bg-gradient-to-r from-emerald-400 to-teal-500"
              else "bg-gradient-to-r from-amber-400 to-studio-coral")
          ∷ bar (lane1_density s)
          ∷ [])

-- `lane2Density` and `lane3Density`
abbrev pub lane2_density : ℕ
lane2_density = 32

abbrev pub lane3_density : ℕ
lane3_density = 61

unfoldable pub other_lanes : (ℕ → String) → List Mark
other_lanes to_text =
    text "Lane 02 (East Bypass)"
    ∷ text "Camera Feed: Cam-East-02"
    ∷ text (to_text lane2_density <> "%")
    ∷ text "Avg: 48 km/h"
    ∷ bar lane2_density
    ∷ text "Lane 03 (Southbound Connector)"
    ∷ text "Camera Feed: Cam-South-03"
    ∷ text (to_text lane3_density <> "%")
    ∷ text "Avg: 28 km/h"
    ∷ bar lane3_density
    ∷ []

unfoldable pub lanes : (ℕ → String) → State → List Mark
lanes to_text s =
    text "ACTIVE APPROACH LANES"
    ∷ text "REAL-TIME DENSITY TELEMETRY"
    ∷ (first_lane to_text s ++ other_lanes to_text)

unfoldable pub recommendation : State → List Mark
recommendation s =
    icon "Sparkles"
    ∷ text "AI Recommendation Engine"
    ∷ (if s.is_optimized
        then icon "CheckCircle2"
          ∷ text "Traffic Flow Optimized"
          ∷ text
              "Green phase extended by +18s. Lane 01 density successfully dropped from 87% to 24%."
          ∷ text "THROUGHPUT: +42%"
          ∷ text "AVG WAIT: 14s (↓68%)"
          ∷ []
        else icon "AlertTriangle"
          ∷ text "High Congestion Detected in Lane 01"
          ∷ text
              "Vehicle queue exceeds 140m. Webster static cycle causing 4.2 min cumulative delay."
          ∷ text "Proposed Intervention"
          ∷ text "“Extend green phase for Lane 01 by 18 seconds.”"
          ∷ text "EST. QUEUE CLEAR: -63%"
          ∷ text "CONFIDENCE: 96.4%"
          ∷ [])

-- `{countdown}`, which shows nothing for null.
abbrev pub count_text : (ℕ → String) → Option ℕ → String
count_text to_text none = ""
count_text to_text (some n) = to_text n

unfoldable pub action : (ℕ → String) → State → List (Item Click)
action to_text s =
    if s.is_optimized
    then texts ("Cycle Synced with Regional MARL Network" ∷ [])
    else button s.is_applying applies (
        if s.is_applying
        then icon "Zap"
          ∷ text ("DISPATCHING MARL ACTUATOR (" <> (count_text to_text s.countdown <> "s)..."))
          ∷ []
        else text "Apply AI Recommendation" ∷ icon "ArrowRight" ∷ [])
      ∷ []

unfoldable pub pipeline : List Mark
pipeline =
    icon "Layers"
    ∷ text "Autonomous Closed-Loop Pipeline:"
    ∷ text "1. Camera Feed"
    ∷ text "→"
    ∷ text "2. YOLOv8s Model"
    ∷ text "→"
    ∷ text "3. Density Analysis"
    ∷ text "→"
    ∷ text "4. MARL Decision"
    ∷ text "→"
    ∷ text "5. Actuator Signal"
    ∷ []

unfoldable pub view : (ℕ → String) → State → List (Item Click)
view to_text s =
    header s
    ++ (marks (lanes to_text s)
        ++ (marks (recommendation s) ++ (action to_text s ++ marks pipeline)))
