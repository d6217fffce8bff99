-- ===== src/Forecast.antt =====
-- frontend/dashboard/src/pages/ForecastingPage.tsx. PCU and the spillback risk are in thousandths, and the
-- products of the code are taken to be exact. What `api.ml.predict` brings is an argument; console output
-- is left out.
pub mod Banner
pub mod Chart
pub mod View
mod Tests
use surakshanet.Base.{
  ℕ, ◌+◌, ◌*◌, ◌==◌, String, Bool, true, false, not, ◌&&◌, Option, none, some, List, [], ◌∷◌,
  str_eq, ltb, find?, or_else, if◌then◌else◌,
}
use surakshanet.Realtime.Backoff.{round}
use surakshanet.Stores.Types.{Junction}

pub data Horizon : Type 0 where
  m15 m30 m60 : Horizon

-- A point of the chart.
pub record Point : Type 0 where
  pub name : String
  pub actual : Option ℕ
  pub predicted : Option ℕ

abbrev point : String → Option ℕ → Option ℕ → Point
point name actual predicted = record { name = name; actual = actual; predicted = predicted }

abbrev pub first_points : List Point
first_points =
    point "T-45" (some 48000) none
    ∷ point "T-30" (some 54000) none
    ∷ point "T-15" (some 62000) none
    ∷ point "Now" (some 71000) (some 71000)
    ∷ point "T+15" none (some 78000)
    ∷ point "T+30" none (some 84000)
    ∷ point "T+60" none (some 68000)
    ∷ []

pub record Page : Type 0 where
  pub selected_junction_id : String
  pub horizon : Horizon
  pub acknowledged : Bool
  pub loading : Bool
  pub spillback_risk : ℕ
  pub prediction_data : List Point

unfoldable pub initial : Page
initial = record {
  selected_junction_id = "DEL-CP-01";
  horizon = m15;
  acknowledged = false;
  loading = false;
  spillback_risk = 440;
  prediction_data = first_points;
}

-- The effect of the store's junctions.
unfoldable pub on_junctions : {F : Type 0} → List (Junction F) → Page → Page
on_junctions [] p = p
on_junctions (j ∷ js) p =
    if str_eq p.selected_junction_id "DEL-CP-01"
    then record p { selected_junction_id = j.id }
    else p

pub record Prediction : Type 0 where
  pub minutes : ℕ
  pub predicted_pcu : ℕ

-- The data of an answer; fields that it may leave out are options.
pub record Answer : Type 0 where
  pub spillback_risk : Option ℕ
  pub predictions : List Prediction

-- `data.predictions?.find(p => p.minutes === minutes)?.predicted_pcu || fallback`
abbrev pub falsy_or : ℕ → ℕ → ℕ
falsy_or fallback n = if n == 0 then fallback else n

abbrev pub pcu_of : Option Prediction → ℕ → ℕ
pcu_of none fallback = fallback
pcu_of (some p) fallback = falsy_or fallback p.predicted_pcu

abbrev pub pcu_at : ℕ → ℕ → Answer → ℕ
pcu_at minutes fallback a = pcu_of (find? (λ p. p.minutes == minutes) a.predictions) fallback

-- `Math.round(pcu * hundredths / 100)`
abbrev pub share : ℕ → ℕ → ℕ
share pcu hundredths = 1000 * round (pcu * hundredths) 100000

abbrev pub points : ℕ → ℕ → ℕ → List Point
points p15 p30 p60 =
    point "T-45" (some (share p15 75)) none
    ∷ point "T-30" (some (share p15 85)) none
    ∷ point "T-15" (some (share p15 95)) none
    ∷ point "Now" (some (share p15 100)) (some (share p15 100))
    ∷ point "T+15" none (some p15)
    ∷ point "T+30" none (some p30)
    ∷ point "T+60" none (some p60)
    ∷ []

unfoldable pub fetch_starts : Page → Page
fetch_starts p = if str_eq p.selected_junction_id "" then p else record p { loading = true }

-- The end of `fetchForecast`, with what `predict` brings, none for an error or an empty answer.
unfoldable pub fetch_ends : Option Answer → Page → Page
fetch_ends none p = record p { loading = false }
fetch_ends (some a) p = elim a.spillback_risk [
  | none ↦ record p { loading = false }
  | some risk ↦ record p {
    loading = false;
    spillback_risk = risk;
    prediction_data = points (pcu_at 15 72000 a) (pcu_at 30 76000 a) (pcu_at 60 65000 a);
  }
]

unfoldable pub select_junction : String → Page → Page
select_junction id p = record p { selected_junction_id = id }

unfoldable pub set_horizon : Horizon → Page → Page
set_horizon h p = record p { horizon = h }

unfoldable pub acknowledge_click : Page → Page
acknowledge_click p = record p { acknowledged = true }

-- Whether the banner of a high risk is shown.
unfoldable pub shows_banner : Page → Bool
shows_banner p = ltb 700 p.spillback_risk && not p.acknowledged

unfoldable pub risk_label : ℕ → String
risk_label risk =
    if ltb risk 500
    then "Nominal Flow"
    else if ltb risk 750
    then "Moderate Spillback"
    else "Critical Spillback"

abbrev default_name : String
default_name = "Connaught Place Outer Circle"

-- `…?.name || default_name`
abbrev pub name_of : {F : Type 0} → Option (Junction F) → String
name_of none = default_name
name_of (some j) = if str_eq j.name "" then default_name else j.name

unfoldable pub selected_name : {F : Type 0} → List (Junction F) → Page → String
selected_name store p = name_of (find? (λ j. str_eq j.id p.selected_junction_id) store)
