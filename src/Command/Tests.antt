-- ===== src/Command/Tests.antt =====
-- The command center and the carousel at concrete inputs.
use surakshanet.Base.{
  or_else, get_elem?, ◌≢◌, ◌↔◌, ◌++◌, ℕ, ◌*◌, ◌%◌, All, ◌≡◌, refl, arith, true, false, some, List,
  [], ◌∷◌, map, length,
}
use surakshanet.Command.Incidents.{
  IncidentItem, initial_incidents, handle_action, act_every, acted, act_every_lem, resolved,
  filtered, only, warning, dispatched,
}
use surakshanet.Command.Optimizer.{
  State, tick, ticks, handle_apply_recommendation, handle_reset, lane1_speed, lane1_density,
  lane1_signal,
}
use surakshanet.Command.Incidents
use surakshanet.Command.Optimizer
use surakshanet.Command.Modal.{
  Event, opens, selects, activates, fires, resets, green_corridor, all_red, run,
}
use surakshanet.Command.Modal.Confirmed.{confirmed, unconfirmed_choice}
use surakshanet.Command.Modal
use surakshanet.Command.Intersections.{
  IntersectionData, initial_intersections, downtown_hub, shown, smooth,
}
use surakshanet.Command.Canvas.{
  Draws, Mouse, initial_vehicles, clicked, hovered_id, id_of, node_color,
}
use surakshanet.Command.Canvas.Motion.{OnRoad, Drawn, frames, frames-OnRoad}
use surakshanet.Command.Canvas.Pointing.{Within, at_drawn, clicked_lem, drawn_missed}
use surakshanet.Command.Deck
use surakshanet.Command.Deck.{same_tab, handle_quick_optimize, shows_optimized}
use surakshanet.Command.Deck.Agreement.{Agrees, run_deck-Agrees}
use surakshanet.Command.Camera

twice :
    map
      (λ (i : IncidentItem). i.status)
      (act_every ("INC-901" ∷ "INC-872" ∷ "INC-901" ∷ []) initial_incidents)
    ≡ resolved ∷ Incidents.pending ∷ resolved ∷ resolved ∷ []
unfolding act_every handle_action
twice = refl

warnings : length (filtered (only warning) initial_incidents) ≡ 2
unfolding filtered
warnings = refl

faster : lane1_speed (ticks 3 (handle_apply_recommendation Optimizer.initial)) ≡ 44
unfolding lane1_speed ticks tick handle_apply_recommendation Optimizer.initial
faster = refl

hub_smooth :
    shown (some downtown_hub) true
    ≡ some (record { current_speed = 42; current_vehicles = 480; current_level = smooth })
unfolding shown
hub_smooth = refl

act_every_lem_example :
    act_every ("INC-901" ∷ "INC-901" ∷ []) initial_incidents
    ≡ map (acted ("INC-901" ∷ "INC-901" ∷ [])) initial_incidents
act_every_lem_example = act_every_lem ("INC-901" ∷ "INC-901" ∷ []) initial_incidents

abbrev hold : List Modal.Event
hold = opens ∷ selects all_red ∷ activates ∷ activates ∷ fires ∷ []

held : (run Modal.initial hold).is_activated ≡ true
unfolding run Modal.step Modal.initial Modal.open_modal Modal.select_click Modal.activate_click
    Modal.handle_activate Modal.activate_fires
held = refl

abbrev corridor_confirmed : List Modal.Event
corridor_confirmed = opens ∷ selects green_corridor ∷ activates ∷ []

unconfirmed_choice_example :
    let m = run Modal.initial (corridor_confirmed ++ selects all_red ∷ fires ∷ []) in
    (m.is_activated ≡ true)
    × (m.selected_action ≡ some all_red)
    × (confirmed (run Modal.initial corridor_confirmed) (selects all_red ∷ fires ∷ []) ≡ 0)
unfolding run Modal.step Modal.initial Modal.open_modal Modal.select_click Modal.activate_click
    Modal.handle_activate
unconfirmed_choice_example = unconfirmed_choice corridor_confirmed all_red refl refl

abbrev spread : ℕ → Draws
spread k = record { place = k % 1000; pace = k }

spread-Drawn : (k : ℕ) → Drawn (spread k)
spread-Drawn k = omega arith

frames-OnRoad_example :
    All (OnRoad false) (frames false 3 (initial_vehicles false spread))
    × (length (frames false 3 (initial_vehicles false spread)) ≡ 48)
frames-OnRoad_example = frames-OnRoad false spread 3 (λ k. spread-Drawn k)

-- The canvas has half its size on the screen, and the mouse is close to the hub.
abbrev mouse : Mouse
mouse = record { left = 180; top = 112; width = 525; height = 275 }

clicked_lem_example :
    (clicked mouse ≡ some downtown_hub ↔ Within 30 mouse downtown_hub)
    × (hovered_id mouse ≡ id_of (clicked mouse))
clicked_lem_example = clicked_lem mouse 0 downtown_hub refl

abbrev junction_42 : IntersectionData
junction_42 = or_else (get_elem? initial_intersections 2) downtown_hub

drawn_missed_example : clicked (at_drawn 1 junction_42) ≢ some junction_42
drawn_missed_example = drawn_missed 1 2 junction_42 refl (omega arith)

hub_green : node_color true downtown_hub ≡ "#22C55E"
unfolding node_color
hub_green = refl

abbrev session : List Deck.Event
session =
    Deck.applies
    ∷ Deck.ticks
    ∷ Deck.selects_tab Deck.incidents
    ∷ Deck.orphan_ends true
    ∷ Deck.selects_tab Deck.overview
    ∷ []

run_deck-Agrees_example : Agrees (Deck.run Deck.initial session)
run_deck-Agrees_example = run_deck-Agrees session

-- The interval of an instance that is gone has optimized the signal.
session_ends :
    let p = Deck.run Deck.initial session in
    (p.is_optimized ≡ true) × (shows_optimized p.control ≡ false) × (p.orphans ≡ 0)
unfolding Deck.run Deck.step Deck.initial Deck.set_active_tab Optimizer.initial tick
    handle_apply_recommendation
session_ends = (refl, refl, refl)

hub_selected : Deck.selected_id Deck.initial ≡ "A-102"
unfolding Deck.initial
hub_selected = refl

abbrev still : ℕ → Camera.Draws
still k = record { left = 4503599627370496; top = 4503599627370496 }

tracked :
    map (λ (b : Camera.DetectionBox). b.left) (Camera.track still 0 Camera.initial).boxes
    ≡ map (λ left. left * Camera.percent) (24 ∷ 58 ∷ 16 ∷ 42 ∷ 85 ∷ [])
unfolding Camera.track Camera.initial
tracked = refl
