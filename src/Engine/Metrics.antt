-- ===== src/Engine/Metrics.antt =====
-- The drawn metrics of frontend/dashboard/src/hooks/useTrafficSimulationEngine.ts.
use surakshanet.Base.{
  ℕ, zero, suc, List, [], ◌∷◌, is_some, Option-cases, inl, inr, ◌/◌, ◌+◌, ◌-◌, ◌*◌, ◌≤◌, ◌<◌, ◌≡◌,
  refl, String, true, some, arith, length, get_elem?,
}
use surakshanet.Realtime.Backoff.{resolution, round-ge, round-le}
use surakshanet.Engine.{
  random_between, generate_metrics, network_los, los_label, pick_template, event_templates,
}

-- A draw lies between its bounds.
pub random_between_bounds :
    (lo hi random : ℕ)
    → lo ≤ hi
    → random < resolution
    → (lo ≤ random_between lo hi random) × (random_between lo hi random ≤ hi)
unfolding random_between
random_between_bounds lo hi random h r =
    let spread : random * (hi - lo) ≤ resolution * (hi - lo) = grind arith in
    (
      round-ge (lo * resolution + random * (hi - lo)) resolution lo (omega arith) (omega arith),
      round-le (lo * resolution + random * (hi - lo)) resolution hi (omega arith) (omega arith),
    )

-- The level of service that belongs to a speed.
pub data Graded : ℕ → String → String → Type 0 where
  good : {v : ℕ} → 35 < v → Graded v "B" "Good Flow"
  fair : {v : ℕ} → 28 ≤ v → v ≤ 35 → Graded v "C" "Fair Flow"
  slow : {v : ℕ} → v < 28 → Graded v "D" "Slow"

network_los-Graded : (v : ℕ) → Graded v (network_los v) (los_label v)
unfolding network_los los_label
network_los-Graded v = grind (arith, good, fair, slow)

-- The metrics are drawn within their ranges, and the level of service and its label are those of the
-- drawn speed: B above 35, D below 28, C between.
generate_metrics_lem :
    (r1 r2 r3 r4 : ℕ)
    → r1 < resolution
    → r2 < resolution
    → r3 < resolution
    → r4 < resolution
    → let m = generate_metrics r1 r2 r3 r4 in
      ((22000 ≤ m.total_vehicles) × (m.total_vehicles ≤ 27000))
      × ((26 ≤ m.avg_speed) × (m.avg_speed ≤ 40))
      × ((1000 ≤ m.throughput) × (m.throughput ≤ 1500))
      × ((2 ≤ m.active_alerts) × (m.active_alerts ≤ 8))
      × Graded m.avg_speed m.network_los m.los_label
unfolding generate_metrics
generate_metrics_lem r1 r2 r3 r4 h1 h2 h3 h4 = (
  random_between_bounds 22000 27000 r1 (omega arith) h1,
  random_between_bounds 26 40 r2 (omega arith) h2,
  random_between_bounds 1000 1500 r3 (omega arith) h3,
  random_between_bounds 2 8 r4 (omega arith) h4,
  network_los-Graded (random_between 26 40 r2),
)

in_range : {A : Type 0} (xs : List A) (i : ℕ) → i < length xs → is_some (get_elem? xs i) ≡ true
in_range [] i h = absurd (omega arith)
in_range (x ∷ xs) zero h = refl
in_range (x ∷ xs) (suc i) h = in_range xs i (omega arith)

-- The index that is drawn for a template lies within the list, so that no event is made of nothing.
pick_template_in_range :
    (random : ℕ)
    → random < resolution
    → get_elem? event_templates (random * length event_templates / resolution)
      ≡ some (pick_template random)
unfolding pick_template
pick_template_in_range random h =
    let i : ℕ = random * length event_templates / resolution in
    let within : is_some (get_elem? event_templates i) ≡ true =
      in_range event_templates i (omega arith) in
    elim (Option-cases (get_elem? event_templates i)) [ inl e ↦ cc | inr (t, e) ↦ rw e refl ]
