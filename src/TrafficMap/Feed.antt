-- ===== src/TrafficMap/Feed.antt =====
-- The map page of frontend/dashboard/src/pages/TrafficMapPage.tsx over time.
use surakshanet.Base.{
  ℕ, suc, ◌%◌, get_elem?, Bool-cases, inl, inr, ◌≤◌, ◌≡◌, refl, ap, String, not, ◌&&◌, Option, none,
  some, List, [], ◌∷◌, map, arith, ltb, ◌==◌, if◌then◌else◌, length, length-take, str_eq,
}
use surakshanet.Stores.Types.{Junction}
use surakshanet.TrafficMap.{
  Pin, Page, FeedEvent, TrafficMessage, SumoJunction, Draw, initial, push, log_step, merge,
  show_sumo, based, step_event, signal_event, drift_pins, on_traffic, on_signals, pulse,
  toggle_playing, default_junctions, base_junctions, based_from,
}

pub data Event : Type 0 where
  traffic : TrafficMessage → Event
  signals : ℕ → Option String → Option String → Event
  second : ℕ → ℕ → ℕ → (ℕ → Draw) → Event
  toggles : Event

-- The names and the places of the pins.
abbrev pub ids : {F : Type 0} → List (Pin F) → List String
ids js = map (λ j. j.id) js

push-short : (e : FeedEvent) (es : List FeedEvent) → length (push e es) ≤ 6
push-short e es = omega (arith, length-take 5 es)

module _ {F : Type 0} where
  show_sumo-id : (s : Option SumoJunction) (j : Pin F) → (show_sumo s j).id ≡ j.id
  show_sumo-id none j = refl
  show_sumo-id (some s) j = refl

  based-id : (live : Option (Pin F)) (idx : ℕ) (j : Junction F) → (based live idx j).id ≡ j.id
  based-id none idx j = refl
  based-id (some live) idx j = refl

  ids-merge :
      (sumo : List SumoJunction) (idx : ℕ) (js : List (Pin F)) → ids (merge sumo idx js) ≡ ids js
  ids-merge sumo idx [] = refl
  ids-merge sumo idx (j ∷ js) =
      cc (show_sumo-id (get_elem? sumo (idx % length sumo)) j, ids-merge sumo (suc idx) js)

  ids-drift_pins :
      (draws : ℕ → Draw) (idx : ℕ) (js : List (Pin F)) → ids (drift_pins draws idx js) ≡ ids js
  ids-drift_pins draws idx [] = refl
  ids-drift_pins draws idx (j ∷ js) = ap (λ is. j.id ∷ is) (ids-drift_pins draws (suc idx) js)

  ids-based_from :
      (lives : List (Pin F)) (idx : ℕ) (js : List (Junction F))
      → ids (based_from lives idx js) ≡ map (λ (j : Junction F). j.id) js
  ids-based_from lives idx [] = refl
  ids-based_from lives idx (j ∷ js) =
      cc (based-id (get_elem? lives (idx % length lives)) idx j, ids-based_from lives (suc idx) js)

  -- What the map shows are the store's junctions, each once and in their order, and its own pins where
  -- the store has none.
  base_junctions_lem :
      (store : List (Junction F)) (p : Page F)
      → ids (base_junctions store p) ≡ (
          if ltb 0 (length store)
          then map (λ (j : Junction F). j.id) store
          else ids p.junctions_data)
  unfolding base_junctions
  base_junctions_lem store p = elim (Bool-cases (ltb 0 (length store))) [
    | inl e ↦ rw e (ids-based_from p.junctions_data 0 store)
    | inr e ↦ rw e refl
  ]

module _ (to_text : ℕ → String) where
  unfoldable pub step : Page ℕ → Event → Page ℕ
  step p (traffic m) = on_traffic to_text m p
  step p (signals now action junction_id) = on_signals to_text now action junction_id p
  step p (second vehicles speed throughput draws) = pulse vehicles speed throughput draws p
  step p toggles = toggle_playing p

  unfoldable pub run : Page ℕ → List Event → Page ℕ
  run p [] = p
  run p (e ∷ es) = run (step p e) es

-- The feed is short and the pins are those of the start.
pub record Inv (p : Page ℕ) : Type 0 where
  pub short : length p.feed_events ≤ 6
  pub pins : ids p.junctions_data ≡ ids default_junctions

module _ (to_text : ℕ → String) where
  log_step-short :
      (m : TrafficMessage) (s : Option ℕ) (es : List FeedEvent)
      → length es ≤ 6
      → length (log_step to_text m s es) ≤ 6
  log_step-short m none es h = h
  log_step-short m (some n) es h = elim (Bool-cases (not (n == 0) && (n % 10 == 0))) [
    | inl e ↦ rw e (push-short (step_event to_text n m) es)
    | inr e ↦ rw e h
  ]

  on_traffic-Inv : (m : TrafficMessage) (p : Page ℕ) → Inv p → Inv (on_traffic to_text m p)
  unfolding on_traffic
  on_traffic-Inv m p v = record {
    short = log_step-short m m.step p.feed_events v.short;
    pins = elim (Bool-cases (ltb 0 (length m.junctions))) [
      | inl e ↦ rw e (cc (ids-merge m.junctions 0 p.junctions_data, v.pins))
      | inr e ↦ rw e v.pins
    ];
  }

  on_signals-Inv :
      (now : ℕ) (action junction_id : Option String) (p : Page ℕ)
      → Inv p
      → Inv (on_signals to_text now action junction_id p)
  unfolding on_signals
  on_signals-Inv now none junction_id p v = v
  on_signals-Inv now (some action) junction_id p v = elim (Bool-cases (str_eq action "")) [
    | inl e ↦ rw e v
    | inr e ↦ rw e (record {
      short = push-short (signal_event to_text now action junction_id) p.feed_events;
      pins = v.pins;
    })
  ]

  pulse-Inv :
      (vehicles speed throughput : ℕ) (draws : ℕ → Draw) (p : Page ℕ)
      → Inv p
      → Inv (pulse vehicles speed throughput draws p)
  unfolding pulse
  pulse-Inv vehicles speed throughput draws p v =
      elim (Bool-cases (p.is_playing && not p.is_twin_connected)) [
        | inl e ↦ rw e (record {
          short = v.short;
          pins = cc (ids-drift_pins draws 0 p.junctions_data, v.pins);
        })
        | inr e ↦ rw e v
      ]

  step-Inv : (p : Page ℕ) (e : Event) → Inv p → Inv (step to_text p e)
  unfolding step
  step-Inv p (traffic m) v = on_traffic-Inv m p v
  step-Inv p (signals now action id) v = on_signals-Inv now action id p v
  step-Inv p (second vehicles speed throughput draws) v =
      pulse-Inv vehicles speed throughput draws p v
  step-Inv p toggles v = unfold toggle_playing in record { short = v.short; pins = v.pins }

  run_from-Inv : (p : Page ℕ) (es : List Event) → Inv p → Inv (run to_text p es)
  unfolding run
  run_from-Inv p [] v = v
  run_from-Inv p (e ∷ es) v = run_from-Inv (step to_text p e) es (step-Inv p e v)

  initial-Inv : Inv initial
  unfolding initial
  initial-Inv = record { short = omega arith; pins = refl }

  -- After any messages, seconds and toggles the map's feed has at most six events, and its pins are
  -- still those that it started with, in their order.
  pub run_map-Inv : (es : List Event) → Inv (run to_text initial es)
  run_map-Inv es = run_from-Inv initial es initial-Inv
