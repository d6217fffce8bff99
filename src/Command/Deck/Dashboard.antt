-- ===== src/Command/Deck/Dashboard.antt =====
-- The markup of frontend/dashboard/src/components/CommandCenter/AnalyticsDashboard.tsx, with the data of
-- its charts. It has no state.
use surakshanet.Base.{ℕ, String, List, [], ◌∷◌, ◌++◌}
use surakshanet.Markup.{Mark, text, icon, tone}

pub record WaitTime : Type 0 where
  pub time : String
  pub before_ai : ℕ
  pub after_ai : ℕ

abbrev wait : String → ℕ → ℕ → WaitTime
wait time before_ai after_ai = record { time = time; before_ai = before_ai; after_ai = after_ai }

abbrev pub wait_time_trend : List WaitTime
wait_time_trend =
    wait "08:00" 130 85
    ∷ wait "09:00" 168 92
    ∷ wait "10:00" 154 88
    ∷ wait "11:00" 120 72
    ∷ wait "12:00" 110 68
    ∷ wait "13:00" 125 74
    ∷ wait "14:00" 142 86
    ∷ []

pub record Throughput : Type 0 where
  pub hour : String
  pub vehicles : ℕ
  pub capacity : ℕ

abbrev passed : String → ℕ → ℕ → Throughput
passed hour vehicles capacity = record { hour = hour; vehicles = vehicles; capacity = capacity }

abbrev pub hourly_throughput : List Throughput
hourly_throughput =
    passed "08h" 4200 5000
    ∷ passed "09h" 5800 5500
    ∷ passed "10h" 5100 5500
    ∷ passed "11h" 3900 5000
    ∷ passed "12h" 3400 4800
    ∷ passed "13h" 4100 5000
    ∷ passed "14h" 4950 5200
    ∷ []

unfoldable pub kpi_cards : List Mark
kpi_cards =
    text "AVERAGE WAIT TIME"
    ∷ icon "Clock"
    ∷ text "86"
    ∷ text "SEC / VEHICLE"
    ∷ text "142s Before AI"
    ∷ icon "TrendingDown"
    ∷ text "39.4% IMPROVEMENT"
    ∷ text "AVG CORRIDOR SPEED"
    ∷ icon "Gauge"
    ∷ text "38.2"
    ∷ text "KM/H"
    ∷ text "22 km/h Baseline"
    ∷ icon "TrendingUp"
    ∷ text "+73.6% SPEED"
    ∷ text "AI SIGNAL INTERVENTIONS"
    ∷ icon "Zap"
    ∷ text "1,492"
    ∷ text "TODAY"
    ∷ text "100% Conflict-Free"
    ∷ text "12ms LATENCY"
    ∷ text "ACCIDENT RISK REDUCTION"
    ∷ icon "ShieldCheck"
    ∷ text "-54.2%"
    ∷ text "Q3 ESTIMATE"
    ∷ text "Green Corridors"
    ∷ text "ACTIVE"
    ∷ []

-- What recharts draws: the key of the x axis and the series with their colours.
pub data Chart : Type 0 where
  area_chart : List WaitTime → String → List (String × String) → Chart
  bar_chart : List Throughput → String → List (String × String) → Chart

unfoldable pub wait_chart : Chart
wait_chart =
    area_chart wait_time_trend "time" (("beforeAI", "#94A3B8") ∷ ("afterAI", "#E5584D") ∷ [])

unfoldable pub throughput_chart : Chart
throughput_chart = bar_chart hourly_throughput "hour" (("vehicles", "#0D0E11") ∷ [])

unfoldable pub chart_titles : List Mark
chart_titles =
    text "Wait Time Optimization Curve"
    ∷ text "Comparing Static Webster Timing vs Autonomous MARL Agent (Seconds)"
    ∷ tone "bg-slate-400"
    ∷ text "Before AI"
    ∷ tone "bg-studio-coral"
    ∷ text "SurakshaNet AI"
    ∷ text "Peak Hour Throughput"
    ∷ text "Hourly Passenger Car Units (PCU)"
    ∷ []

-- The texts of the dashboard, without those of the charts.
unfoldable pub dashboard : List Mark
dashboard = kpi_cards ++ chart_titles
