-- ===== src/TrafficMap/Pulse.antt =====
-- The clock of frontend/dashboard/src/pages/TrafficMapPage.tsx, which makes figures up until the twin
-- sends some.
use surakshanet.Base.{
  ℕ, suc, ◌≤◌, ◌≡◌, refl, true, false, not, ◌&&◌, ◌||◌, List, [], ◌∷◌, arith, ltb, All,
}
use surakshanet.TrafficMap.{Pin, Page, status_of, Draw, clamped, drift, drift_pins, pulse}

-- A pin whose figures are within what the clock draws, and whose status is that of its figures.
pub record Plausible {F : Type 0} (j : Pin F) : Type 0 where
  pub queue : (2 ≤ j.queue) × (j.queue ≤ 130)
  pub speed : (80 ≤ j.speed) × (j.speed ≤ 550)
  pub status : j.status ≡ status_of (ltb 50 j.queue || ltb j.speed 180)

clamped-bounds :
    (lo hi half draw prev : ℕ)
    → lo ≤ hi
    → (lo ≤ clamped lo hi half draw prev) × (clamped lo hi half draw prev ≤ hi)
clamped-bounds lo hi half draw prev h = (omega arith, omega arith)

module _ {F : Type 0} where
  drift-Plausible : (d : Draw) (j : Pin F) → Plausible (drift d j)
  drift-Plausible d j = record {
    queue = clamped-bounds 2 130 2 d.queue j.queue (omega arith);
    speed = clamped-bounds 80 550 10 d.speed j.speed (omega arith);
    status = refl;
  }

  drift_pins-Plausible :
      (draws : ℕ → Draw) (idx : ℕ) (js : List (Pin F)) → All Plausible (drift_pins draws idx js)
  drift_pins-Plausible draws idx [] = tt
  drift_pins-Plausible draws idx (j ∷ js) =
      (drift-Plausible (draws idx) j, drift_pins-Plausible draws (suc idx) js)

  -- A second that is played without the twin leaves at least 800 vehicles, a speed between 12 and 48
  -- km/h, a throughput between 600 and 1800, and at every pin a queue between 2 and 130 and a speed
  -- between 8 and 55 km/h, shown as congested exactly when the queue is above 50 or the speed below 18.
  pub pulse_bounds :
      (vehicles speed throughput : ℕ) (draws : ℕ → Draw) (p : Page F)
      → p.is_playing ≡ true
      → p.is_twin_connected ≡ false
      → let q = pulse vehicles speed throughput draws p in
        (800 ≤ q.total_vehicles)
        × ((120 ≤ q.avg_speed) × (q.avg_speed ≤ 480))
        × ((600 ≤ q.throughput) × (q.throughput ≤ 1800))
        × All Plausible q.junctions_data
  unfolding pulse
  pulse_bounds vehicles speed throughput draws p playing alone =
      rw (playing, alone)
        (
          omega arith,
          clamped-bounds 120 480 6 speed p.avg_speed (omega arith),
          clamped-bounds 600 1800 7 throughput p.throughput (omega arith),
          drift_pins-Plausible draws 0 p.junctions_data,
        )

  -- Once the twin is connected, or while the clock is paused, a second changes no figure.
  pulse-still :
      (vehicles speed throughput : ℕ) (draws : ℕ → Draw) (p : Page F)
      → (p.is_playing && not p.is_twin_connected) ≡ false
      → pulse vehicles speed throughput draws p ≡ p
  unfolding pulse
  pulse-still vehicles speed throughput draws p h = rw h refl
