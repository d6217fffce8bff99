-- ===== src/Signals/Control.antt =====
-- The signal control page of frontend/dashboard/src/pages/SignalControlPage.tsx over time.
use surakshanet.Base.{
  ◌≤◌, ◌≡◌, refl, String, Bool, true, false, ◌||◌, Option, none, some, List, [], ◌∷◌, arith, length,
  length-take, Bool-cases, inl, inr, ◌<>◌,
}
use surakshanet.Signals.{
  Mode, Plan, Page, Message, Effect, succeeds, initial, log, present, describe, select_first,
  on_message, on_plan, marl_tick, handle_mode_change, handle_override, target,
}

pub data Event : Type 0 where
  selects_first : Option String → Option String → Event
  selects : String → Event
  receives : String → Message → Event
  plans : Option Plan → Event
  reports : String → Event
  changes : Mode → Bool → Event
  overrides : String → Option String → Event

module _ (to_lower : String → String) where
  unfoldable pub step : Page → Event → Page
  step p (selects_first stored answer) = select_first stored answer p
  step p (selects id) = record p { selected_junction_id = id; is_dropdown_open = false }
  step p (receives now m) = on_message now m p
  step p (plans plan) = on_plan to_lower plan p
  step p (reports entry) = marl_tick entry p
  step p (changes mode accepted) = (handle_mode_change mode accepted p).0
  step p (overrides action answer) = (handle_override action answer p).0

  unfoldable pub run : Page → List Event → Page
  run p [] = p
  run p (e ∷ es) = run (step p e) es

  log-short : (entry : String) (p : Page) → length (log entry p).telemetry ≤ 26
  log-short entry p = omega (arith, length-take 25 p.telemetry)

  step-short : (p : Page) (e : Event) → length p.telemetry ≤ 26 → length (step p e).telemetry ≤ 26
  unfolding step select_first on_message on_plan marl_tick handle_mode_change handle_override
  step-short p (selects_first (some id) answer) h = ground arith
  step-short p (selects_first none (some id)) h = h
  step-short p (selects_first none none) h = h
  step-short p (selects id) h = h
  step-short p (receives now m) h = elim (Bool-cases (present m.action || present m.kind)) [
    | inl e ↦ rw e (log-short (describe now m) p)
    | inr e ↦ rw e h
  ]
  step-short p (plans none) h = h
  step-short p (plans (some plan)) h = h
  step-short p (reports entry) h = ground (arith, log-short entry p)
  step-short p (changes mode accepted) h = h
  step-short p (overrides action answer) h =
      log-short ("[MANUAL OVERRIDE] Sent: " <> (action <> (" to SUMO " <> target p))) p

  run_from-short :
      (p : Page) (es : List Event) → length p.telemetry ≤ 26 → length (run p es).telemetry ≤ 26
  unfolding run
  run_from-short p [] h = h
  run_from-short p (e ∷ es) h = run_from-short (step p e) es (step-short p e h)

  -- After any events the telemetry has at most twenty-six entries.
  run-telemetry : (es : List Event) → length (run initial es).telemetry ≤ 26
  unfolding initial
  run-telemetry es = run_from-short initial es (omega arith)

-- Whether the last thing that is done is to report a success.
abbrev pub ends_well : List Effect → Bool
ends_well [] = false
ends_well (succeeds s ∷ []) = true
ends_well (e ∷ es) = ends_well es

-- Whether the server accepts an override or not, the page logs the same entry and reports a success.
handle_override_lem :
    (action : String) (answer : Option String) (p : Page)
    → ((handle_override action answer p).0 ≡ (handle_override action none p).0)
      × (ends_well (handle_override action answer p).1 ≡ true)
unfolding handle_override
handle_override_lem action (some status) p = (refl, refl)
handle_override_lem action none p = (refl, refl)
