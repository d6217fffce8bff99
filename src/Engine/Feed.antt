-- ===== src/Engine/Feed.antt =====
-- The event feed of frontend/dashboard/src/hooks/useTrafficSimulationEngine.ts.
use surakshanet.Base.{
  ℕ, zero, suc, ◌+◌, ◌≤◌, ◌<◌, ◌≡◌, refl, String, Bool, not, Bool-cases, inl, inr, List, [], ◌∷◌,
  arith, ◌==◌, ==_iff, length, All, All-imp, All-take, All-filter, take, filter, count, length-take,
  length-filter-le, if◌then◌else◌,
}
use surakshanet.Engine.{
  TelemetryEvent, NetworkMetrics, Engine, new_event, initial_engine, clock_tick, metrics_tick,
  event_tick, acknowledge_event,
}

pub data Event : Type 0 where
  shows : String → Event
  measures : NetworkMetrics → Event
  -- the draw and the time of a new event
  reports : ℕ → ℕ → Event
  acknowledges : ℕ → Event

unfoldable pub step : Engine → Event → Engine
step e (shows clock) = clock_tick clock e
step e (measures metrics) = metrics_tick metrics e
step e (reports random now) = event_tick random now e
step e (acknowledges id) = acknowledge_event id e

unfoldable pub run : Engine → List Event → Engine
run e [] = e
run e (x ∷ xs) = run (step e x) xs

-- How many events have an id, and that all ids are below a number.
abbrev pub with_id : ℕ → List TelemetryEvent → ℕ
with_id id = count (λ e. e.id == id)

abbrev pub Below : ℕ → TelemetryEvent → Type 0
Below n e = e.id < n

pub record Inv (e : Engine) : Type 0 where
  pub short : length e.events ≤ 20
  pub numbered : All (Below e.event_counter) e.events
  pub distinct : (id : ℕ) → with_id id e.events ≤ 1

with_id-fresh :
    (n id : ℕ) (es : List TelemetryEvent) → All (Below n) es → n ≤ id → with_id id es ≡ 0
with_id-fresh n id [] h le = refl
with_id-fresh n id (e ∷ es) h le = ground (arith, with_id-fresh n id es)

with_id-take : (n id : ℕ) (es : List TelemetryEvent) → with_id id (take n es) ≤ with_id id es
with_id-take zero id es = omega arith
with_id-take (suc n) id [] = omega arith
with_id-take (suc n) id (e ∷ es) = ground (arith, with_id-take n id es)

with_id-filter :
    (p : TelemetryEvent → Bool) (id : ℕ) (es : List TelemetryEvent)
    → with_id id (filter p es) ≤ with_id id es
with_id-filter p id [] = omega arith
with_id-filter p id (e ∷ es) = ground (arith, with_id-filter p id es)

Below-suc : (n : ℕ) (es : List TelemetryEvent) → All (Below n) es → All (Below (n + 1)) es
Below-suc n es = All-imp (Below n) (Below (n + 1)) es (λ e h. omega arith)

-- Adding one whose id is the counter to numbered, distinct ids.
with_id-new :
    (n id : ℕ) (e : TelemetryEvent) (es : List TelemetryEvent)
    → All (Below n) es
    → with_id id es ≤ 1
    → e.id ≡ n
    → with_id id (e ∷ es) ≤ 1
with_id-new n id e es h d new = elim (Bool-cases (e.id == id)) [
  | inl same ↦
      let fresh : with_id id es ≡ 0 = with_id-fresh n id es h (grind (arith, ==_iff e.id id)) in
      ground arith
  | inr other ↦ ground arith
]

event_tick-Inv : (random now : ℕ) (e : Engine) → Inv e → Inv (event_tick random now e)
unfolding event_tick
event_tick-Inv random now e v =
    let new : TelemetryEvent = new_event random now e.event_counter in
    let older : All (Below (e.event_counter + 1)) e.events =
      Below-suc e.event_counter e.events v.numbered in
    record {
      short = rw length-take (omega arith);
      numbered = All-take (Below (e.event_counter + 1)) 20 (new ∷ e.events) (omega arith, older);
      distinct = λ id. omega (
        arith,
        with_id-take 20 id (new ∷ e.events),
        with_id-new e.event_counter id new e.events v.numbered (v.distinct id) refl,
      );
    }

acknowledge_event-Inv : (id : ℕ) (e : Engine) → Inv e → Inv (acknowledge_event id e)
unfolding acknowledge_event
acknowledge_event-Inv id e v = record {
  short =
      omega
        (arith, length-filter-le {0} (λ (x : TelemetryEvent). not (x.id == id)) e.events, v.short);
  numbered = All-filter (Below e.event_counter) (λ x. not (x.id == id)) e.events v.numbered;
  distinct = λ other.
      omega (arith, with_id-filter (λ x. not (x.id == id)) other e.events, v.distinct other);
}

step-Inv : (e : Engine) (x : Event) → Inv e → Inv (step e x)
unfolding step
step-Inv e (shows clock) v =
    unfold clock_tick in record { short = v.short; numbered = v.numbered; distinct = v.distinct }
step-Inv e (measures metrics) v =
    unfold metrics_tick in record { short = v.short; numbered = v.numbered; distinct = v.distinct }
step-Inv e (reports random now) v = event_tick-Inv random now e v
step-Inv e (acknowledges id) v = acknowledge_event-Inv id e v

run_from-Inv : (e : Engine) (xs : List Event) → Inv e → Inv (run e xs)
unfolding run
run_from-Inv e [] v = v
run_from-Inv e (x ∷ xs) v = run_from-Inv (step e x) xs (step-Inv e x v)

initial_engine-Inv : (metrics : NetworkMetrics) (now : ℕ) → Inv (initial_engine metrics now)
unfolding initial_engine
initial_engine-Inv metrics now = record {
  short = omega arith;
  numbered = omega arith;
  distinct = λ id. ground arith;
}

-- Whatever ticks and acknowledgements follow the start, the feed has at most twenty events, their ids
-- are below the counter, and no two have the same id.
pub run_engine-Inv :
    (metrics : NetworkMetrics) (now : ℕ) (xs : List Event)
    → Inv (run (initial_engine metrics now) xs)
run_engine-Inv metrics now xs =
    run_from-Inv (initial_engine metrics now) xs (initial_engine-Inv metrics now)

-- An acknowledged event is gone and the others stay.
pub acknowledge_event_lem :
    (id other : ℕ) (e : Engine)
    → with_id other (acknowledge_event id e).events
      ≡ (if id == other then 0 else with_id other e.events)
unfolding acknowledge_event
acknowledge_event_lem id other e = go e.events
  where
    go :
        (es : List TelemetryEvent)
        → with_id other (filter (λ x. not (x.id == id)) es)
          ≡ (if id == other then 0 else with_id other es)
    go [] = ground arith
    go (x ∷ xs) = ground (arith, go xs)
