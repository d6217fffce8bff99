-- ===== src/Forecast/View.antt =====
-- The markup of frontend/dashboard/src/pages/ForecastingPage.tsx. The texts of the risk, as a fraction
-- and in percent, are arguments; the chart and the arc of the gauge are left out, and so is which option a selection
-- shows.
use surakshanet.Base.{
  ℕ, String, ◌<>◌, Bool, true, false, List, [], ◌∷◌, ◌++◌, map, ltb, if◌then◌else◌,
}
use surakshanet.Stores.Types.{Junction}
use surakshanet.Markup.{Mark, text, icon, tone, bar, Item, mark, button, marks}
use surakshanet.Forecast.{Horizon, m15, m30, m60, Page, selected_name, risk_label, shows_banner}

pub data Click : Type 0 where
  selects : String → Click
  sets : Horizon → Click
  refreshes acknowledges : Click

abbrev pub same_horizon : Horizon → Horizon → Bool
same_horizon m15 m15 = true
same_horizon m30 m30 = true
same_horizon m60 m60 = true
same_horizon _ _ = false

abbrev pub horizon_text : Horizon → String
horizon_text m15 = "15"
horizon_text m30 = "30"
horizon_text m60 = "60"

abbrev pub options : {F : Type 0} → List (Junction F) → List (Item Click)
options [] = button false (selects "DEL-CP-01") (text "Connaught Place Outer Circle" ∷ []) ∷ []
options (j ∷ js) = map (λ k. button false (selects k.id) (text k.name ∷ [])) (j ∷ js)

abbrev pub pill : Horizon → Horizon → Item Click
pill chosen h = button false (sets h) (
    tone (
      if same_horizon chosen h
      then "bg-white text-teal-700 outline outline-2 outline-teal-500 shadow-sm z-10"
      else "text-slate-600 hover:text-slate-900")
    ∷ text (horizon_text h <> "m")
    ∷ [])

unfoldable pub header : {F : Type 0} → List (Junction F) → Page → List (Item Click)
header store p =
    marks (
      text "Traffic Forecasting"
      ∷ text "Spillback Prediction & Flow Telemetry Model (LSTM + XGBoost)"
      ∷ [])
    ++ (options store
        ++ (pill p.horizon m15
            ∷ pill p.horizon m30
            ∷ pill p.horizon m60
            ∷ button false refreshes (
                icon "RefreshCw"
                ∷ tone (if p.loading then "animate-spin text-teal-600" else "")
                ∷ [])
            ∷ []))

unfoldable pub banner : {F : Type 0} → (ℕ → String) → List (Junction F) → Page → List (Item Click)
banner percent store p =
    if shows_banner p
    then mark (icon "AlertCircle")
      ∷ mark (text ("High Spillback Risk Detected - " <> selected_name store p))
      ∷ mark (
          text (
            "Predicted queue exceeds 75% capacity within the next "
            <> (horizon_text p.horizon
                <> ("-minute horizon. Spillback index: " <> (percent p.spillback_risk <> "%.")))))
      ∷ button false acknowledges (text "Acknowledge" ∷ [])
      ∷ []
    else []

abbrev pub risk_tone : ℕ → String
risk_tone risk =
    if ltb risk 500
    then "text-emerald-600"
    else if ltb risk 750
    then "text-amber-600"
    else "text-red-600"

unfoldable pub chart_header : {F : Type 0} → List (Junction F) → Page → List Mark
chart_header store p =
    icon "TrendingUp"
    ∷ text ("Actual vs Predicted PCU Flow — " <> selected_name store p)
    ∷ text ("Horizon: " <> (horizon_text p.horizon <> " Mins"))
    ∷ []

unfoldable pub gauge : (ℕ → String) → Page → List Mark
gauge fixed p =
    icon "BarChart3"
    ∷ text "Spillback Risk Gauge (Kspill)"
    ∷ text (fixed p.spillback_risk)
    ∷ tone (risk_tone p.spillback_risk)
    ∷ text (risk_label p.spillback_risk)
    ∷ text "Capacity Threshold"
    ∷ text "0.75 Limit"
    ∷ text "Ensemble Confidence"
    ∷ text "88%"
    ∷ []

abbrev pub models : List Mark
models =
    text "Model Weight Contribution (Ensemble)"
    ∷ text "LSTM Deep Neural Network (Temporal Flow)"
    ∷ text "55%"
    ∷ bar 55
    ∷ text "XGBoost Regressor (Multi-horizon Features)"
    ∷ text "35%"
    ∷ bar 35
    ∷ text "IRC PCU Dynamic Heuristic Calibration"
    ∷ text "10%"
    ∷ bar 10
    ∷ text "Horizon MAPE Validation Errors"
    ∷ text "15 Min"
    ∷ text "4.2%"
    ∷ text "↓ 0.5% vs avg"
    ∷ text "30 Min"
    ∷ text "7.8%"
    ∷ text "Nominal"
    ∷ text "60 Min"
    ∷ text "11.4%"
    ∷ text "↑ 1.2% Drift"
    ∷ []

unfoldable pub view :
    {F : Type 0} → (ℕ → String) → (ℕ → String) → List (Junction F) → Page → List (Item Click)
view percent fixed store p =
    header store p
    ++ (banner percent store p
        ++ (marks (chart_header store p) ++ (marks (gauge fixed p) ++ marks models)))
