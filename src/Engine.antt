-- ===== src/Engine.antt =====
-- frontend/dashboard/src/hooks/useTrafficSimulationEngine.ts. A draw of `Math.random()` is a
-- numerator over `resolution`; `now` is `Date.now()` and `clock` the formatted time of day.
pub mod Feed
pub mod Phase
pub mod Metrics
mod Tests
use surakshanet.Base.{
  ℕ, zero, suc, ◌+◌, ◌-◌, ◌*◌, ◌/◌, ◌%◌, String, Bool, true, false, not, Option, none, some, List,
  [], ◌∷◌, ◌==◌, ltb, leb, if◌then◌else◌, take, filter, length, get_elem?, or_else,
}
use surakshanet.Realtime.Backoff.{resolution, round}

pub data Kind : Type 0 where
  emergency info warning success : Kind

pub record TelemetryEvent : Type 0 where
  pub id : ℕ
  pub kind : Kind
  pub title : String
  pub desc : String
  pub time : String
  pub timestamp : ℕ

pub record Template : Type 0 where
  pub kind : Kind
  pub title : String
  pub desc : String
  pub time : String

abbrev template : Kind → String → String → String → Template
template kind title desc time = record { kind = kind; title = title; desc = desc; time = time }

abbrev pub first_template : Template
first_template =
    template emergency "Ambulance Approaching" "J-42 pre-empted to Green (Phase 3). ETA 45s."
      "Just now"

abbrev pub event_templates : List Template
event_templates =
    first_template
    ∷ template info "MARL Phase Adjustment"
        "Corridor Alpha cycle length increased by 12s to clear backlog." "~2m"
    ∷ template warning "Congestion Build-up"
        "Volume exceeding capacity at Link 104-B. Speed dropped to 15km/h." "~5m"
    ∷ template success "Sync Check Complete" "All 150 edge devices reporting nominal status." "~12m"
    ∷ template info "Green Wave Optimized"
        "Corridor Beta green-band re-timed for 42 km/h progression." "~3m"
    ∷ template warning "Queue Spillback Risk"
        "Junction A4 northbound queue at 78% capacity. Predicted overflow in 8m." "~1m"
    ∷ template success "Edge Firmware Update"
        "Node BLR-8821 firmware updated to v3.2.1 successfully." "~15m"
    ∷ template emergency "Fire Engine Dispatched"
        "Green corridor activated on Ring Road. 18 junctions pre-empted." "Just now"
    ∷ []

pub record NetworkMetrics : Type 0 where
  pub total_vehicles : ℕ
  pub avg_speed : ℕ
  pub network_los : String
  pub los_label : String
  pub throughput : ℕ
  pub active_alerts : ℕ

-- `Math.round(min + Math.random() * (max - min))`.
unfoldable pub random_between : ℕ → ℕ → ℕ → ℕ
random_between lo hi random = round (lo * resolution + random * (hi - lo)) resolution

unfoldable pub network_los : ℕ → String
network_los avg_speed = if ltb 35 avg_speed then "B" else if ltb avg_speed 28 then "D" else "C"

unfoldable pub los_label : ℕ → String
los_label avg_speed =
    if ltb 35 avg_speed then "Good Flow" else if ltb avg_speed 28 then "Slow" else "Fair Flow"

unfoldable pub generate_metrics : ℕ → ℕ → ℕ → ℕ → NetworkMetrics
generate_metrics r1 r2 r3 r4 = record {
  total_vehicles = random_between 22000 27000 r1;
  avg_speed = random_between 26 40 r2;
  network_los = network_los (random_between 26 40 r2);
  los_label = los_label (random_between 26 40 r2);
  throughput = random_between 1000 1500 r3;
  active_alerts = random_between 2 8 r4;
}

-- The state of `useTrafficSimulationEngine`.
pub record Engine : Type 0 where
  pub metrics : NetworkMetrics
  pub events : List TelemetryEvent
  pub clock : String
  pub event_counter : ℕ

-- `EVENT_TEMPLATES.slice(0, 4).map((e, i) => …)`, from index `i` on.
abbrev pub seed_events : ℕ → ℕ → List Template → List TelemetryEvent
seed_events now i [] = []
seed_events now i (t ∷ ts) =
    record {
      id = i;
      kind = t.kind;
      title = t.title;
      desc = t.desc;
      time = t.time;
      timestamp = now - i * 120000;
    }
    ∷ seed_events now (suc i) ts

unfoldable pub initial_engine : NetworkMetrics → ℕ → Engine
initial_engine metrics now = record {
  metrics = metrics;
  events = seed_events now 0 (take 4 event_templates);
  clock = "";
  event_counter = 4;
}

-- The three intervals: the clock, the metrics, and a new event.
unfoldable pub clock_tick : String → Engine → Engine
clock_tick clock e = record e { clock = clock }

unfoldable pub metrics_tick : NetworkMetrics → Engine → Engine
metrics_tick metrics e = record e { metrics = metrics }

-- `EVENT_TEMPLATES[Math.floor(Math.random() * EVENT_TEMPLATES.length)]`
unfoldable pub pick_template : ℕ → Template
pick_template random =
    or_else (get_elem? event_templates (random * length event_templates / resolution))
      first_template

abbrev pub new_event : ℕ → ℕ → ℕ → TelemetryEvent
new_event random now id = record {
  id = id;
  kind = (pick_template random).kind;
  title = (pick_template random).title;
  desc = (pick_template random).desc;
  time = "Just now";
  timestamp = now;
}

unfoldable pub event_tick : ℕ → ℕ → Engine → Engine
event_tick random now e = record e {
  events = take 20 (new_event random now e.event_counter ∷ e.events);
  event_counter = e.event_counter + 1;
}

unfoldable pub acknowledge_event : ℕ → Engine → Engine
acknowledge_event id e = record e { events = filter (λ x. not (x.id == id)) e.events }

-- The state of `useSignalPhase`.
pub record SignalPhase : Type 0 where
  pub phase_id : ℕ
  pub remaining : ℕ
  pub cycle_length : ℕ

abbrev pub phases : List String
phases = "North-South Straight" ∷ "North-South Left" ∷ "East-West Straight" ∷ "East-West Left" ∷ []

unfoldable pub phase_name : SignalPhase → Option String
phase_name s = get_elem? phases s.phase_id

-- One second, with the draw that a new phase takes.
unfoldable pub phase_tick : ℕ → SignalPhase → SignalPhase
phase_tick random s =
    if leb s.remaining 1
    then record s {
      phase_id = (s.phase_id + 1) % length phases;
      remaining = random_between 10 25 random;
    }
    else record s { remaining = s.remaining - 1 }
