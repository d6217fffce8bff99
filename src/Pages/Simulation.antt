-- ===== src/Pages/Simulation.antt =====
-- frontend/dashboard/src/pages/SimulationPage.tsx. The draws of the chart's data are an argument; the
-- buttons to step and to reset, and the choice of a scenario, have no handler.
use surakshanet.Base.{
  ℕ, zero, suc, ◌+◌, ◌-◌, ◌*◌, String, Bool, true, false, not, List, [], ◌∷◌, ◌++◌, if◌then◌else◌,
}
use surakshanet.Markup.{Mark, text, icon, tone, Item, button, marks}
use surakshanet.Pages.{options}

pub record Page : Type 0 where
  pub is_running : Bool
  pub speed : String

unfoldable pub initial : Page
initial = record { is_running = true; speed = "1x" }

pub data Click : Type 0 where
  toggles steps resets : Click
  sets_speed sets_scenario : String → Click

unfoldable pub step : Page → Click → Page
step p toggles = record p { is_running = not p.is_running }
step p (sets_speed speed) = record p { speed = speed }
step p steps = p
step p resets = p
step p (sets_scenario scenario) = p

unfoldable pub run : Page → List Click → Page
run p [] = p
run p (e ∷ es) = run (step p e) es

-- A point of the chart: the throughput in draws of `one`, of which a draw of `Math.random()` is one.
pub record Point : Type 0 where
  pub step : ℕ
  pub throughput : ℕ

-- The `n` points from `i` on, over the denominator `one`; the code makes 20 from 0 on.
abbrev pub points_from : ℕ → (ℕ → ℕ) → ℕ → ℕ → List Point
points_from one draws zero i = []
points_from one draws (suc n) i =
    record { step = 3900 + i * 10; throughput = 800 * one + draws i * 200 - 100 * one }
    ∷ points_from one draws n (suc i)

abbrev run_tone : Bool → String
run_tone is_running =
    if is_running
    then "bg-red-100 text-red-600 hover:bg-red-200"
    else "bg-emerald-100 text-emerald-600 hover:bg-emerald-200"

unfoldable pub controls : Page → List (Item Click)
controls p =
    marks (text "SUMO Simulation" ∷ text "Traffic Scenario Testing Environment" ∷ [])
    ++ (options sets_scenario ("Peak Hour" ∷ "Off-Peak" ∷ "Emergency" ∷ "Festival" ∷ [])
        ++ (button false toggles (
                tone (run_tone p.is_running)
                ∷ text (if p.is_running then "Stop" else "Start")
                ∷ icon (if p.is_running then "Square" else "Play")
                ∷ [])
              ∷ button false steps (text "Step" ∷ icon "FastForward" ∷ [])
              ∷ marks (text p.speed ∷ [])
            ++ (options sets_speed ("1x" ∷ "2x" ∷ "5x" ∷ "10x" ∷ [])
                ++ button false resets (text "Reset" ∷ icon "RotateCcw" ∷ []) ∷ [])))

unfoldable pub status : Page → List Mark
status p =
    text "Current Step"
    ∷ text "4,092"
    ∷ text "Sim Time"
    ∷ text "01:08:12"
    ∷ tone
        (if p.is_running then "bg-emerald-100 text-emerald-700" else "bg-slate-100 text-slate-700")
    ∷ text (if p.is_running then "Running" else "Stopped")
    ∷ []

unfoldable pub metrics : List Mark
metrics =
    icon "Car"
    ∷ text "Total Vehicles"
    ∷ text "1,247"
    ∷ icon "Activity"
    ∷ text "Avg Speed"
    ∷ text "28.5"
    ∷ text "km/h"
    ∷ icon "Clock"
    ∷ text "Total Waiting Time"
    ∷ text "4,521"
    ∷ text "s"
    ∷ icon "BarChart3"
    ∷ text "Throughput"
    ∷ text "892"
    ∷ text "PCU/hr"
    ∷ text "Real-time Throughput (last 100 steps)"
    ∷ []

unfoldable pub view : Page → List (Item Click)
view p = controls p ++ marks (status p ++ metrics)
