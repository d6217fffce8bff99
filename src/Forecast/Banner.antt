-- ===== src/Forecast/Banner.antt =====
-- The banner of frontend/dashboard/src/pages/ForecastingPage.tsx.
use surakshanet.Base.{
  ℕ, ◌<◌, ◌≡◌, refl, String, true, false, Option, none, some, List, [], ◌∷◌, arith, ltb,
  if◌then◌else◌,
}
use surakshanet.Stores.Types.{Junction}
use surakshanet.Forecast.{
  Page, Horizon, Answer, on_junctions, fetch_starts, fetch_ends, select_junction, set_horizon,
  acknowledge_click, shows_banner, risk_label,
}

pub data Event (F : Type 0) : Type 0 where
  junctions : List (Junction F) → Event F
  starts acknowledges : Event F
  ends : Option Answer → Event F
  selects : String → Event F
  sets : Horizon → Event F

module _ {F : Type 0} where
  unfoldable pub step : Page → Event F → Page
  step p (junctions js) = on_junctions js p
  step p starts = fetch_starts p
  step p (ends a) = fetch_ends a p
  step p (selects id) = select_junction id p
  step p (sets h) = set_horizon h p
  step p acknowledges = acknowledge_click p

  unfoldable pub run : Page → List (Event F) → Page
  run p [] = p
  run p (e ∷ es) = run (step p e) es

  step-acknowledged :
      (p : Page) (e : Event F) → p.acknowledged ≡ true → (step p e).acknowledged ≡ true
  unfolding step on_junctions fetch_starts fetch_ends select_junction set_horizon acknowledge_click
  step-acknowledged p (junctions []) h = h
  step-acknowledged p (junctions (j ∷ js)) h = ground (arith, h)
  step-acknowledged p starts h = ground (arith, h)
  step-acknowledged p (ends none) h = h
  step-acknowledged p (ends (some a)) h = go a.spillback_risk refl
    where
      go : (o : Option ℕ) → a.spillback_risk ≡ o → (fetch_ends (some a) p).acknowledged ≡ true
      go none e = rw e h
      go (some risk) e = rw e h
  step-acknowledged p (selects id) h = h
  step-acknowledged p (sets hz) h = h
  step-acknowledged p acknowledges h = refl

  run-acknowledged :
      (p : Page) (es : List (Event F)) → p.acknowledged ≡ true → (run p es).acknowledged ≡ true
  unfolding run
  run-acknowledged p [] h = h
  run-acknowledged p (e ∷ es) h = run-acknowledged (step p e) es (step-acknowledged p e h)

  -- Once a banner has been acknowledged none is shown any more, whatever junction is selected afterwards
  -- and whatever risk is predicted for it.
  banner_silenced :
      (p : Page) (es : List (Event F)) → shows_banner (run (acknowledge_click p) es) ≡ false
  unfolding shows_banner acknowledge_click
  banner_silenced p es = ground (arith, run-acknowledged (record p { acknowledged = true }) es refl)

-- A risk above 0.70 that is not acknowledged has the banner, and is labelled as moderate below 0.75 and
-- as critical from there on.
risk_label_lem :
    (p : Page)
    → p.acknowledged ≡ false
    → 700 < p.spillback_risk
    → (shows_banner p ≡ true)
      × (risk_label p.spillback_risk
          ≡ (if ltb p.spillback_risk 750 then "Moderate Spillback" else "Critical Spillback"))
unfolding shows_banner risk_label
risk_label_lem p a h = (ground (arith, a), ground arith)
