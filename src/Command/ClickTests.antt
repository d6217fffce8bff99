-- ===== src/Command/ClickTests.antt =====
-- What the command center offers to be clicked, at concrete inputs.
use surakshanet.Base.{ℕ, ◌+◌, ◌≡◌, ◌≤◌, ◌⊎◌, refl, String, true, some, List, [], ◌∷◌, length, All}
use surakshanet.Markup.{offered}
use surakshanet.Command.Optimizer
use surakshanet.Command.Optimizer.Life
use surakshanet.Command.Optimizer.Life.{Phase, choices, run_control-Phase}
use surakshanet.Command.Optimizer.View.{applies, resets, view}
use surakshanet.Command.Incidents.{
  IncidentItem, all, only, warning, initial_incidents, handle_action, filtered,
}
use surakshanet.Command.Incidents.Dispatch.{
  Clicks, rests, clicks, work, offers_act, IsResolved, dispatch_terminates,
}
use surakshanet.Command.Incidents.View.{header, card, card_top}
use surakshanet.Command.Incidents.View as Stream
use surakshanet.Command.Intersections.{IntersectionData, downtown_hub, smooth, active}
use surakshanet.Command.Intersections.Window.{closes, optimizes}
use surakshanet.Command.Intersections.Window
use surakshanet.Command.Deck
use surakshanet.Command.Deck.{Page, handle_quick_optimize}
use surakshanet.Command.Deck.Windows.{window_of, optimize_other}

abbrev digits : ℕ → String
digits n = "42"

abbrev applied : List Life.Event
applied = Life.clicks applies ∷ Life.ticks ∷ Life.clicks Optimizer.View.resets ∷ Life.ticks ∷ []

run_control-Phase_example :
    Phase (Life.run digits Optimizer.initial applied)
    × (offered (view digits (Life.run digits Optimizer.initial applied))
        ≡ choices (Life.run digits Optimizer.initial applied))
run_control-Phase_example = run_control-Phase digits applied

abbrev dispatched_once : List IncidentItem
dispatched_once = handle_action "INC-872" initial_incidents

one_click : Clicks digits initial_incidents ("INC-872" ∷ []) dispatched_once
unfolding Stream.view header card card_top filtered offered
one_click = clicks (only warning) "INC-872" refl rests

five_left : work initial_incidents ≡ 5
five_left = refl

dispatch_terminates_example :
    (length {A = String} ("INC-872" ∷ []) + work dispatched_once ≤ work initial_incidents)
    × (All IsResolved dispatched_once
        ⊎ ((id : String) × (offers_act digits all id dispatched_once ≡ true)))
dispatch_terminates_example =
    dispatch_terminates digits initial_incidents dispatched_once ("INC-872" ∷ []) one_click

abbrev sector_four : IntersectionData
sector_four = record downtown_hub { id = "E-019"; level = smooth; ai_status = active }

abbrev looking : Page
looking = Deck.handle_select_intersection sector_four Deck.initial

optimize_other_example :
    let q = handle_quick_optimize "E-019" looking in
    (window_of digits digits q ≡ window_of digits digits looking)
    × (offered (window_of digits digits q) ≡ closes ∷ optimizes "E-019" ∷ [])
    × (q.is_optimized ≡ true)
    × (offered (Window.view digits digits q.is_optimized (some downtown_hub)) ≡ closes ∷ [])
unfolding Deck.handle_select_intersection
optimize_other_example = optimize_other digits digits looking sector_four refl refl
