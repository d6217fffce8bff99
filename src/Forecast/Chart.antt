-- ===== src/Forecast/Chart.antt =====
-- The chart of frontend/dashboard/src/pages/ForecastingPage.tsx.
use surakshanet.Base.{
  ℕ, ◌≤◌, ◌≡◌, refl, none, some, List, [], ◌∷◌, arith, is_some, Bool, not, ◌&&◌, count, length,
}
use surakshanet.Forecast.{Page, Point, Answer, Horizon, fetch_ends, set_horizon, points, pcu_at}

-- What a chart shows of the past: each value at most the next.
abbrev pub Rising : ℕ → List Point → Type 0
Rising low [] = Unit
Rising low (p ∷ ps) = elim p.actual [ none ↦ Rising low ps | some v ↦ (low ≤ v) × Rising v ps ]

-- The points that show a measured and a predicted value, and those that show neither.
abbrev pub has_both : Point → Bool
has_both p = is_some p.actual && is_some p.predicted

abbrev pub has_none : Point → Bool
has_none p = not (is_some p.actual) && not (is_some p.predicted)

points-Rising : (p15 p30 p60 : ℕ) → Rising 0 (points p15 p30 p60)
points-Rising p15 p30 p60 = omega arith

-- An answer with a risk makes a chart of seven points in which the measured values never fall, one point
-- has a measured and a predicted value, and none has neither. The chosen horizon has no effect on it.
chart_lem :
    (a : Answer) (risk : ℕ) (h : Horizon) (p : Page)
    → a.spillback_risk ≡ some risk
    → let ps = (fetch_ends (some a) p).prediction_data in
      Rising 0 ps
      × (count has_both ps ≡ 1)
      × (count has_none ps ≡ 0)
      × (length ps ≡ 7)
      × ((fetch_ends (some a) (set_horizon h p)).prediction_data ≡ ps)
unfolding fetch_ends set_horizon
chart_lem a risk h p e = rw e (
  points-Rising (pcu_at 15 72000 a) (pcu_at 30 76000 a) (pcu_at 60 65000 a),
  refl,
  refl,
  refl,
  refl,
)
