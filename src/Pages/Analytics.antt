-- ===== src/Pages/Analytics.antt =====
-- frontend/dashboard/src/pages/AnalyticsPage.tsx. The chosen range changes nothing but the look of its
-- button; the other buttons have no handler.
use surakshanet.Base.{ℕ, String, false, List, [], ◌∷◌, ◌++◌, str_eq, if◌then◌else◌}
use surakshanet.Markup.{Mark, text, icon, tone, bar, Item, button, marks}

pub record Day : Type 0 where
  pub name : String
  pub baseline : ℕ
  pub active : ℕ

abbrev day : String → ℕ → ℕ → Day
day name baseline active = record { name = name; baseline = baseline; active = active }

abbrev pub mock_chart_data : List Day
mock_chart_data =
    day "Mon" 65 82
    ∷ day "Tue" 62 85
    ∷ day "Wed" 58 80
    ∷ day "Thu" 60 84
    ∷ day "Fri" 55 78
    ∷ day "Sat" 75 90
    ∷ day "Sun" 78 92
    ∷ []

pub data Click : Type 0 where
  sets_range : String → Click
  filters exports_pdf exports_csv : Click

-- The range that is chosen.
unfoldable pub step : String → Click → String
step time_range (sets_range range) = range
step time_range filters = time_range
step time_range exports_pdf = time_range
step time_range exports_csv = time_range

abbrev pub range_button : String → String → String → Item Click
range_button time_range range label = button false (sets_range range) (
    tone (
      if str_eq time_range range
      then "bg-white text-slate-800 shadow-sm"
      else "text-slate-500 hover:text-slate-700")
    ∷ text label
    ∷ [])

unfoldable pub header : String → List (Item Click)
header time_range =
    marks (text "Executive Analytics" ∷ text "System performance vs Baseline (Q3 2024)" ∷ [])
    ++ (range_button time_range "today" "Today"
        ∷ range_button time_range "7d" "Last 7 Days"
        ∷ range_button time_range "30d" "Last 30 Days"
        ∷ button false filters (icon "Filter" ∷ text "All Corridors" ∷ icon "ChevronDown" ∷ [])
        ∷ button false exports_pdf (text "Export PDF" ∷ icon "FileText" ∷ [])
        ∷ button false exports_csv (text "Export CSV" ∷ icon "Download" ∷ [])
        ∷ [])

unfoldable pub kpi_cards : List Mark
kpi_cards =
    text "Avg Delay Reduction"
    ∷ icon "TrendingDown"
    ∷ text "-24%"
    ∷ text "vs 18% baseline"
    ∷ bar 75
    ∷ text "Throughput Increase"
    ∷ icon "TrendingUp"
    ∷ text "+15%"
    ∷ text "peak hours"
    ∷ bar 60
    ∷ text "Level of Service (LOS)"
    ∷ icon "BarChart3"
    ∷ text "B+"
    ∷ text "improved from C"
    ∷ []

-- The titles, and what the heat map shows.
unfoldable pub middle : List Mark
middle =
    text "Peak-Hour Performance Trends"
    ∷ text "Congestion Heatmap"
    ∷ icon "AlertTriangle"
    ∷ text "CRITICAL NODE"
    ∷ text "Free Flow"
    ∷ text "Severe"
    ∷ []

unfoldable pub view : String → List (Item Click)
view time_range = header time_range ++ marks (kpi_cards ++ middle)
