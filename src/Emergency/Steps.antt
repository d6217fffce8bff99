-- ===== src/Emergency/Steps.antt =====
-- The emergency page over time (frontend/dashboard/src/pages/EmergencyPage.tsx).
use surakshanet.Base.{
  ◌||◌, ℕ, suc, ◌≤◌, ◌≡◌, ◌⊎◌, inl, inr, refl, String, Bool, true, false, none, some, List, [], ◌∷◌,
  arith, if◌then◌else◌, is_some,
}
use surakshanet.Emergency.{
  EmergencyType, Page, initial, default_route_junctions, vary_speed, Answer, answers, fails,
  Fallback, responds, throws, activation, finish_activation, finish_deactivation, Message,
  emergency_activated, emergency_deactivated, other, on_message, on_status, handle_swap,
  progression_tick, speed_tick,
}
use surakshanet.Emergency.Corridor.{statuses, corridor, advance-corridor}

pub data Event : Type 0 where
  selects : EmergencyType → Event
  -- the end of `handleToggleCorridor`, which was started on an inactive or on an active page
  activates : Answer → Fallback → Event
  deactivates swaps : Event
  receives : Message → Event
  -- the answer of `getStatus`
  reports : List String → Event
  progresses : String → Event
  speeds : ℕ → Event

unfoldable pub step : Page → Event → Page
step p (selects type) = record p { selected_type = type }
step p (activates a fb) = finish_activation a fb p
step p deactivates = finish_deactivation p
step p swaps = handle_swap p
step p (receives m) = on_message m p
step p (reports ids) = on_status ids p
step p (progresses now) = progression_tick now p
step p (speeds draw) = speed_tick draw p

unfoldable pub run : Page → List Event → Page
run p [] = p
run p (e ∷ es) = run (step p e) es

-- `passed` junctions of the route are behind the vehicle.
pub record Inv (p : Page) : Type 0 where
  pub passed : ℕ
  pub progress : statuses p.junctions ≡ corridor passed 5
  pub idle :
      (p.is_activated ≡ true)
      ⊎ ((p.active_event_id ≡ none) × (p.junctions ≡ default_route_junctions))
  pub slow : 50 ≤ p.speed
  pub fast : p.speed ≤ 95

initial-Inv : Inv initial
unfolding initial
initial-Inv = record {
  passed = 0;
  progress = refl;
  idle = inr (refl, refl);
  slow = omega arith;
  fast = omega arith;
}

finish_activation-Inv :
    (a : Answer) (fb : Fallback) (p : Page) → Inv p → Inv (finish_activation a fb p)
unfolding finish_activation
finish_activation-Inv a fb p v = record {
  passed = v.passed;
  progress = ground (arith, v.progress);
  idle = ground (arith, v.idle);
  slow = ground (arith, v.slow);
  fast = ground (arith, v.fast);
}

on_message-Inv : (m : Message) (p : Page) → Inv p → Inv (on_message m p)
unfolding on_message
on_message-Inv (emergency_activated none) p v = record {
  passed = v.passed;
  progress = v.progress;
  idle = inl refl;
  slow = v.slow;
  fast = v.fast;
}
on_message-Inv (emergency_activated (some id)) p v = record {
  passed = v.passed;
  progress = v.progress;
  idle = inl refl;
  slow = v.slow;
  fast = v.fast;
}
on_message-Inv emergency_deactivated p v = record {
  passed = 0;
  progress = refl;
  idle = inr (refl, refl);
  slow = v.slow;
  fast = v.fast;
}
on_message-Inv other p v = v

progression_tick-Inv : (now : String) (p : Page) → Inv p → Inv (progression_tick now p)
unfolding progression_tick
progression_tick-Inv now p v = record {
  passed = if p.is_activated then suc v.passed else v.passed;
  progress = ground (arith, v.progress, advance-corridor now p.junctions v.passed 5 v.progress);
  idle = ground (arith, v.idle);
  slow = ground (arith, v.slow);
  fast = ground (arith, v.fast);
}

vary_speed_bounds : (draw prev : ℕ) → (50 ≤ vary_speed draw prev) × (vary_speed draw prev ≤ 95)
unfolding vary_speed
vary_speed_bounds draw prev = omega arith

speed_tick-Inv : (draw : ℕ) (p : Page) → Inv p → Inv (speed_tick draw p)
unfolding speed_tick
speed_tick-Inv draw p v = record {
  passed = v.passed;
  progress = ground (arith, v.progress);
  idle = ground (arith, v.idle);
  slow = ground (arith, v.slow, vary_speed_bounds draw p.speed);
  fast = ground (arith, v.fast, vary_speed_bounds draw p.speed);
}

step-Inv : (p : Page) (e : Event) → Inv p → Inv (step p e)
unfolding step
step-Inv p (selects type) v = record {
  passed = v.passed;
  progress = v.progress;
  idle = v.idle;
  slow = v.slow;
  fast = v.fast;
}
step-Inv p (activates a fb) v = finish_activation-Inv a fb p v
step-Inv p deactivates v =
    unfold finish_deactivation in
    record { passed = 0; progress = refl; idle = inr (refl, refl); slow = v.slow; fast = v.fast }
step-Inv p swaps v =
    unfold handle_swap in
    record { passed = v.passed; progress = v.progress; idle = v.idle; slow = v.slow; fast = v.fast }
step-Inv p (receives m) v = on_message-Inv m p v
step-Inv p (reports []) v = unfold on_status in v
step-Inv p (reports (id ∷ ids)) v =
    unfold on_status in
    record {
      passed = v.passed;
      progress = v.progress;
      idle = inl refl;
      slow = v.slow;
      fast = v.fast;
    }
step-Inv p (progresses now) v = progression_tick-Inv now p v
step-Inv p (speeds draw) v = speed_tick-Inv draw p v

run_from-Inv : (p : Page) (es : List Event) → Inv p → Inv (run p es)
unfolding run
run_from-Inv p [] v = v
run_from-Inv p (e ∷ es) v = run_from-Inv (step p e) es (step-Inv p e v)

-- After any events the route is a corridor with some number of its five junctions cleared, an
-- inactive page shows the initial route and no event, and the speed lies between 50 and 95.
pub run_page-Inv : (es : List Event) → Inv (run initial es)
run_page-Inv es = run_from-Inv initial es initial-Inv

-- Whether one of the two requests to activate has succeeded.
abbrev pub reached : Answer → Fallback → Bool
reached (answers event_id id) fb = true
reached fails (responds ok event_id) = ok
reached fails throws = false

-- Once `handleToggleCorridor` has tried to activate, the page is active exactly when it was before or
-- one of the two requests has succeeded, and so for its holding an event's id; the route and the
-- speed are left alone.
pub activation_lem :
    (a : Answer) (fb : Fallback) (p : Page)
    → let q = finish_activation a fb p in
      (q.is_activated ≡ (reached a fb || p.is_activated))
      × (is_some q.active_event_id ≡ (reached a fb || is_some p.active_event_id))
      × (q.junctions ≡ p.junctions)
      × (q.speed ≡ p.speed)
unfolding finish_activation activation
activation_lem (answers event_id id) fb p = (refl, refl, refl, refl)
activation_lem fails (responds true id) p = (refl, refl, refl, refl)
activation_lem fails (responds false id) p = (refl, refl, refl, refl)
activation_lem fails throws p = (refl, refl, refl, refl)
