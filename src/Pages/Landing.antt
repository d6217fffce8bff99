-- ===== src/Pages/Landing.antt =====
-- frontend/dashboard/src/pages/LandingPage.tsx, which no route shows. The city that it draws is
-- Command/Canvas, with no handler for what is selected.
use surakshanet.Base.{String, false, List, [], ◌∷◌, ◌++◌}
use surakshanet.Markup.{Mark, text, icon, Item, button, marks}

pub data Click : Type 0 where
  -- `navigate(path)`, by the parts of the path
  navigates : List String → Click

abbrev launch : String → Item Click
launch label = button false (navigates ("command" ∷ [])) (text label ∷ icon "ArrowRight" ∷ [])

unfoldable pub top : List (Item Click)
top =
    marks (icon "Shield" ∷ text "SurakshaNet" ∷ text "SMART CITY AI OPS" ∷ [])
    ++ launch "Launch Command Center" ∷ []

unfoldable pub hero : List (Item Click)
hero =
    marks (
      text "AI-POWERED INTELLIGENT TRAFFIC & ROAD SAFETY NETWORK"
      ∷ text "See Traffic. "
      ∷ text "Predict Problems."
      ∷ text " Move Smarter."
      ∷ text
          "SurakshaNet uses AI-powered computer vision and real-time traffic intelligence to monitor roads, detect incidents, and dynamically optimize traffic signals."
      ∷ [])
    ++ (launch "Launch Command Center"
        ∷ marks (text "Explore SurakshaNet" ∷ icon "ChevronRight" ∷ []))

unfoldable pub network : List Mark
network =
    icon "Activity"
    ∷ text "Simulated Smart-City Transportation Network"
    ∷ text "CLICK ANY INTERSECTION TO INSPECT"
    ∷ text "150+"
    ∷ text "Connected Intersections"
    ∷ text "39.4%"
    ∷ text "Average Delay Reduction"
    ∷ text "99.2%"
    ∷ text "YOLOv8 Detection Accuracy"
    ∷ text "18.4s"
    ∷ text "Green Corridor Response"
    ∷ []

unfoldable pub pillars : List Mark
pillars =
    text "Intelligent Infrastructure for Modern Smart Cities"
    ∷ text "From continuous edge computer-vision to reinforcement-learning actuators."
    ∷ icon "Eye"
    ∷ text "Computer Vision & YOLO Tracking"
    ∷ text
        "Processes high-resolution video streams directly at the edge, categorizing vehicle density, pedestrian crossings, and vehicle classes with sub-20ms latency."
    ∷ icon "Sliders"
    ∷ text "Dynamic AI Signal Optimization"
    ∷ text
        "Multi-Agent Reinforcement Learning (MARL) coordinates adjacent intersections in real time, shifting green-phase allocations to alleviate bottleneck lanes before congestion spreads."
    ∷ icon "Shield"
    ∷ text "Emergency Green Corridors"
    ∷ text
        "Automatically identifies approaching ambulances, fire trucks, and police units, pre-clearing 24 consecutive signals along the corridor to decrease transit times by 58%."
    ∷ []

unfoldable pub closing : List (Item Click)
closing =
    marks (
      text "Ready to Experience Next-Gen Traffic Intelligence?"
      ∷ text "Step into the operational cockpit and monitor simulated city corridors in real time."
      ∷ [])
    ++ (launch "Enter Command Center"
        ∷ marks (text "© 2026 SurakshaNet • Smart City Autonomous Traffic Platform" ∷ []))

unfoldable pub view : List (Item Click)
view = top ++ (hero ++ (marks network ++ (marks pillars ++ closing)))
