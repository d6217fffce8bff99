-- ===== src/Engine/Tests.antt =====
-- The simulation engine at concrete inputs.
use surakshanet.Base.{
  ◌≡◌, ◌≤◌, ◌+◌, ◌%◌, refl, some, List, [], ◌∷◌, arith, length, if◌then◌else◌, ◌==◌,
}
use surakshanet.Engine.{
  NetworkMetrics, initial_engine, generate_metrics, random_between, SignalPhase, phase_tick,
  phase_name, event_tick, acknowledge_event,
}
use surakshanet.Engine.Phase.{phase_lasts, ticks, ticks-InCycle, InCycle}
use surakshanet.Engine.Feed.{
  run_engine-Inv, acknowledge_event_lem, Inv, run, reports, acknowledges, with_id, Event, step,
}

abbrev quiet : NetworkMetrics
quiet = generate_metrics 0 0 0 0

abbrev three_left : SignalPhase
three_left = record { phase_id = 3; remaining = 3; cycle_length = 90 }

quiet_speed : quiet.avg_speed ≡ 26
unfolding generate_metrics random_between
quiet_speed = refl

wraps_around :
    phase_name (phase_tick 0 (ticks (0 ∷ 0 ∷ []) three_left)) ≡ some "North-South Straight"
unfolding phase_name phase_tick ticks
wraps_around = refl

abbrev busy : List Event
busy = reports 0 5 ∷ acknowledges 2 ∷ reports 0 9 ∷ []

busy_events : length (run (initial_engine quiet 0) busy).events ≡ 5
unfolding run step initial_engine event_tick acknowledge_event
busy_events = refl

phase_lasts_example :
    ((ticks (0 ∷ 0 ∷ []) three_left).phase_id ≡ 3)
    × ((phase_tick 0 (ticks (0 ∷ 0 ∷ []) three_left)).phase_id ≡ (3 + 1) % 4)
    × (10 ≤ (phase_tick 0 (ticks (0 ∷ 0 ∷ []) three_left)).remaining)
    × ((phase_tick 0 (ticks (0 ∷ 0 ∷ []) three_left)).remaining ≤ 25)
phase_lasts_example = phase_lasts (0 ∷ 0 ∷ []) 0 three_left refl (omega arith)

ticks-InCycle_example : InCycle 25 (ticks (0 ∷ 0 ∷ 0 ∷ []) three_left)
ticks-InCycle_example =
    ticks-InCycle 25 (0 ∷ 0 ∷ 0 ∷ []) three_left (omega arith) (omega arith)
      (record { phase = omega arith; bounded = omega arith })

run_engine-Inv_example : Inv (run (initial_engine quiet 0) busy)
run_engine-Inv_example = run_engine-Inv quiet 0 busy

acknowledge_event_lem_example :
    with_id 2 (acknowledge_event 2 (initial_engine quiet 0)).events
    ≡ (if 2 == 2 then 0 else with_id 2 (initial_engine quiet 0).events)
acknowledge_event_lem_example = acknowledge_event_lem 2 2 (initial_engine quiet 0)
