-- ===== src/Emergency/Tests.antt =====
-- The emergency page at concrete inputs.
use surakshanet.Base.{ℕ, String, ◌≡◌, ◌||◌, refl, min, true, none, some, List, [], ◌∷◌, is_some}
use surakshanet.Emergency.{
  active_green, pre_empting, standard, cleared, initial, default_route_junctions, advance, fails,
  responds, activation, finish_activation, cleared_count, progression_tick, speed_tick, vary_speed,
}
use surakshanet.Emergency.Corridor.{statuses, corridor, advance_all, progression_refines}
use surakshanet.Emergency.Steps.{
  Event, activates, progresses, speeds, step, run, Inv, run_page-Inv, reached, activation_lem,
}

abbrev dispatch : List Event
dispatch =
    activates fails (responds true none)
    ∷ progresses "10:00:08"
    ∷ speeds 4
    ∷ progresses "10:00:16"
    ∷ []

dispatch_ends :
    let p = run initial dispatch in
    (statuses p.junctions ≡ cleared ∷ cleared ∷ active_green ∷ pre_empting ∷ standard ∷ [])
    × (p.active_event_id ≡ some "emergency-active")
    × (p.speed ≡ 70)
unfolding run step initial finish_activation activation progression_tick speed_tick vary_speed
    advance
dispatch_ends = (refl, refl, refl)

run_page-Inv_example : Inv (run initial dispatch)
run_page-Inv_example = run_page-Inv dispatch

progression_refines_example :
    let js = advance_all ("a" ∷ "b" ∷ []) default_route_junctions in
    (statuses js ≡ corridor 2 5) × (cleared_count js ≡ min 2 5)
progression_refines_example = progression_refines ("a" ∷ "b" ∷ [])

activation_lem_example :
    let q = finish_activation fails (responds true (some "e7")) initial in
    (q.is_activated ≡ (reached fails (responds true (some "e7")) || initial.is_activated))
    × (is_some q.active_event_id
        ≡ (reached fails (responds true (some "e7")) || is_some initial.active_event_id))
    × (q.junctions ≡ initial.junctions)
    × (q.speed ≡ initial.speed)
activation_lem_example = activation_lem fails (responds true (some "e7")) initial

abbrev kmh : ℕ → String
kmh n = "68"
