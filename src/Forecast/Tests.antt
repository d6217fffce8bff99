-- ===== src/Forecast/Tests.antt =====
-- The forecasting page at concrete inputs.
use surakshanet.Base.{◌≡◌, refl, true, none, some, [], ◌∷◌, map}
use surakshanet.Forecast.{Page, Point, Answer, initial, fetch_starts, fetch_ends, shows_banner}

abbrev answer : Answer
answer = record {
  spillback_risk = some 720;
  predictions =
      record { minutes = 15; predicted_pcu = 80500 }
      ∷ record { minutes = 60; predicted_pcu = 0 }
      ∷ [];
}

abbrev fetched : Page
fetched = fetch_ends (some answer) (fetch_starts initial)

fetched_values :
    map (λ (p : Point). p.actual) fetched.prediction_data
    ≡ some 60000 ∷ some 68000 ∷ some 76000 ∷ some 81000 ∷ none ∷ none ∷ none ∷ []
unfolding fetch_ends fetch_starts initial
fetched_values = refl

fetched_future :
    map (λ (p : Point). p.predicted) fetched.prediction_data
    ≡ none ∷ none ∷ none ∷ some 81000 ∷ some 80500 ∷ some 76000 ∷ some 65000 ∷ []
unfolding fetch_ends fetch_starts initial
fetched_future = refl

fetched_banner : shows_banner fetched ≡ true
unfolding shows_banner fetch_ends fetch_starts initial
fetched_banner = refl
