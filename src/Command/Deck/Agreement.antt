-- ===== src/Command/Deck/Agreement.antt =====
-- Whether the parts of frontend/dashboard/src/pages/CommandCenterPage.tsx say the same of the signal.
use surakshanet.Base.{
  ◌≡◌, refl, String, Bool, true, false, not, ◌&&◌, Option, none, some, List, [], ◌∷◌, arith, str_eq,
  Bool-cases, inl, inr,
}
use surakshanet.Command.Optimizer
use surakshanet.Command.Optimizer.{State, tick, handle_apply_recommendation, handle_reset}
use surakshanet.Command.Deck.{
  CommandTab, overview, live_map, traffic_ai, signal_control, incidents, analytics, Page, mounted,
  initial, same_tab, set_active_tab, handle_select_intersection, close_intersection,
  handle_quick_optimize, heard, with_control, apply_click, reset_click, Event, selects_tab, selects,
  closes, applies, ticks, resets, optimizes, orphan_ends, step, run, shows_optimized,
}

-- The signal control does not call the signal optimized while the page, and with it the map, does not.
abbrev pub Agrees : Page → Type 0
Agrees p = (shows_optimized p.control && not p.is_optimized) ≡ false

-- A handler of the signal control that keeps what it has told in step with what it shows.
abbrev Tells : (State → State) → Type 0
Tells f =
    (c : State) (was : Bool)
    → (c.is_optimized && not was) ≡ false
    → ((f (record c { told = [] })).is_optimized
        && not (heard (f (record c { told = [] })).told was))
      ≡ false

apply_click-Tells : Tells apply_click
unfolding handle_apply_recommendation
apply_click-Tells c was h = ground arith

tick-Tells : Tells tick
unfolding tick
tick-Tells c was h = ground arith

reset_click-Tells : Tells reset_click
unfolding handle_reset
reset_click-Tells c was h = ground arith

with_control-Agrees :
    (f : State → State) (p : Page) → Tells f → Agrees p → Agrees (with_control f p)
with_control-Agrees f p t h = go p.control refl
  where
    go : (o : Option State) → p.control ≡ o → Agrees (with_control f p)
    go none e = rw e (ground (arith, h, e))
    go (some c) e = rw e (t c p.is_optimized (ground (arith, h, e)))

mounted-plain : (tab : CommandTab) → shows_optimized (mounted tab) ≡ false
unfolding Optimizer.initial
mounted-plain overview = refl
mounted-plain live_map = refl
mounted-plain traffic_ai = refl
mounted-plain signal_control = refl
mounted-plain incidents = refl
mounted-plain analytics = refl

set_active_tab-Agrees : (tab : CommandTab) (p : Page) → Agrees p → Agrees (set_active_tab tab p)
unfolding set_active_tab
set_active_tab-Agrees tab p h = elim (Bool-cases (same_tab p.active_tab tab)) [
  | inl e ↦ rw e h
  | inr e ↦ rw (e, mounted-plain tab) refl
]

handle_quick_optimize-Agrees : (id : String) (p : Page) → Agrees (handle_quick_optimize id p)
unfolding handle_quick_optimize
handle_quick_optimize-Agrees id p =
    let q : Page = record p { is_optimized = true } in
    let agreed : Agrees q = ground arith in
    elim (Bool-cases (str_eq id "A-102")) [
      | inl e ↦ rw e (set_active_tab-Agrees signal_control q agreed)
      | inr e ↦ rw e agreed
    ]

step-Agrees : (p : Page) (e : Event) → Agrees p → Agrees (step p e)
unfolding step
step-Agrees p (selects_tab tab) h = set_active_tab-Agrees tab p h
step-Agrees p (selects node) h = unfold handle_select_intersection in h
step-Agrees p closes h = unfold close_intersection in h
step-Agrees p applies h = with_control-Agrees apply_click p apply_click-Tells h
step-Agrees p ticks h = with_control-Agrees tick p tick-Tells h
step-Agrees p resets h = with_control-Agrees reset_click p reset_click-Tells h
step-Agrees p (optimizes id) h = handle_quick_optimize-Agrees id p
step-Agrees p (orphan_ends runs) h = ground (arith, h)

run_from-Agrees : (p : Page) (es : List Event) → Agrees p → Agrees (run p es)
unfolding run
run_from-Agrees p [] h = h
run_from-Agrees p (e ∷ es) h = run_from-Agrees (step p e) es (step-Agrees p e h)

initial-Agrees : Agrees initial
unfolding initial Optimizer.initial
initial-Agrees = refl

-- After any events of the command center the signal control that is shown does not call the signal
-- optimized unless the page, and with it the map and the window of the junction, does.
pub run_deck-Agrees : (es : List Event) → Agrees (run initial es)
run_deck-Agrees es = run_from-Agrees initial es initial-Agrees

-- The other way round it does not hold: on another tab than that of the signal control, optimizing the
-- junction A-102 leads to that tab, with the page saying that the signal is optimized and the control
-- that it is not.
quick_optimize_lem :
    (p : Page)
    → same_tab p.active_tab signal_control ≡ false
    → let q = handle_quick_optimize "A-102" p in
      (q.is_optimized ≡ true)
      × (q.active_tab ≡ signal_control)
      × (q.control ≡ some Optimizer.initial)
      × (shows_optimized q.control ≡ false)
unfolding handle_quick_optimize set_active_tab
quick_optimize_lem p h = rw h (refl, refl, refl, mounted-plain signal_control)
