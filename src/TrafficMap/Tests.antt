-- ===== src/TrafficMap/Tests.antt =====
-- The map page at concrete inputs.
use surakshanet.Base.{ℕ, ◌≡◌, ◌≤◌, refl, true, none, some, String, List, [], ◌∷◌, length, All}
use surakshanet.Stores.Types.{Junction}
use surakshanet.TrafficMap.{
  Pin, drift, normal, initial, TrafficMessage, Draw, on_traffic, on_signals, pulse, base_junctions,
  filtered_junctions, marker_color, congested,
}
use surakshanet.TrafficMap.Pulse.{Plausible, pulse_bounds}
use surakshanet.TrafficMap.Feed.{Event, traffic, signals, second, run, step, Inv, ids, run_map-Inv}

abbrev ten : ℕ → String
ten n = "10"

abbrev draws : ℕ → Draw
draws i = record { speed = i; queue = 4 }

abbrev tenth_step : TrafficMessage
tenth_step = record {
  step = some 10;
  total_vehicles = some 900;
  avg_speed = none;
  throughput = none;
  network_los = some "B";
  active_alerts = none;
  junctions = record { queue = 60; speed = 150; pcu = 400; is_congested = true } ∷ [];
}

abbrev events : List Event
events =
    second 3 6 2 draws
    ∷ traffic tenth_step
    ∷ signals 5 (some "EXTEND") none
    ∷ traffic tenth_step
    ∷ []

shown_events : length (run ten initial events).feed_events ≡ 6
unfolding run step initial on_traffic on_signals pulse
shown_events = refl

shown_vehicles : (run ten initial events).total_vehicles ≡ 900
unfolding run step initial on_traffic on_signals pulse
shown_vehicles = refl

red : marker_color congested true ≡ "#EF4444"
unfolding marker_color
red = refl

abbrev first : Pin ℕ
first = record {
  id = "DEL-CP-01";
  name = "Connaught Place Outer Circle";
  lat = 0;
  lng = 0;
  status = normal;
  is_marl = true;
  pcu = 342;
  speed = 315;
  queue = 14;
}

-- 12 + 4 - 2 metres and 31.5 + 0.7 - 1 km/h.
abbrev drifted : Pin ℕ
drifted = drift (record { speed = 7; queue = 4 }) (record first { queue = 12 })

drifted_figures : (drifted.queue ≡ 14) × (drifted.speed ≡ 312) × (drifted.pcu ≡ 327)
drifted_figures = (refl, refl, refl)

abbrev gate : Junction ℕ
gate = record {
  id = "J1";
  name = "Central Sector";
  latitude = 0;
  longitude = 0;
  num_approaches = 4;
  is_active = true;
  created_at = "2026-01-01";
}

searched : ids (filtered_junctions (λ s. s) "Sector" (gate ∷ []) initial) ≡ "J1" ∷ []
unfolding filtered_junctions base_junctions initial
searched = refl

pulse_bounds_example :
    let q = pulse 3 6 2 draws initial in
    (800 ≤ q.total_vehicles)
    × ((120 ≤ q.avg_speed) × (q.avg_speed ≤ 480))
    × ((600 ≤ q.throughput) × (q.throughput ≤ 1800))
    × All Plausible q.junctions_data
unfolding initial
pulse_bounds_example = pulse_bounds 3 6 2 draws initial refl refl

run_map-Inv_example : Inv (run ten initial events)
run_map-Inv_example = run_map-Inv ten events
