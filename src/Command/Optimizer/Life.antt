-- ===== src/Command/Optimizer/Life.antt =====
-- The signal control of frontend/dashboard/src/components/CommandCenter/SignalControlInteractive.tsx over
-- time: clicks on the buttons that its markup offers, and ticks.
use surakshanet.Base.{
  ℕ, ◌-◌, ◌≤◌, ◌≡◌, refl, String, Bool, true, false, none, some, List, [], ◌∷◌, ◌++◌, arith, leb,
  if◌then◌else◌, any, Bool-cases, inl, inr,
}
use surakshanet.Markup.{Item, marks, offered, offered-marks}
use surakshanet.Command.Optimizer.{State, initial, handle_apply_recommendation, tick, handle_reset}
use surakshanet.Command.Optimizer.View.{
  Click, applies, resets, header, lanes, recommendation, action, pipeline, view,
}

abbrev same_click : Click → Click → Bool
same_click applies applies = true
same_click resets resets = true
same_click _ _ = false

abbrev handle : Click → State → State
handle applies s = handle_apply_recommendation s
handle resets s = handle_reset s

-- A click on a button does something only where the markup offers it.
unfoldable pub press : (ℕ → String) → Click → State → State
press to_text c s = if any (same_click c) (offered (view to_text s)) then handle c s else s

pub data Event : Type 0 where
  clicks : Click → Event
  ticks : Event

unfoldable pub step : (ℕ → String) → State → Event → State
step to_text s (clicks c) = press to_text c s
step to_text s ticks = tick s

unfoldable pub run : (ℕ → String) → State → List Event → State
run to_text s [] = s
run to_text s (e ∷ es) = run to_text (step to_text s e) es

-- What each state offers.
abbrev pub choices : State → List Click
choices s = if s.is_optimized then resets ∷ [] else if s.is_applying then [] else applies ∷ []

offered-action :
    (to_text : ℕ → String) (s : State)
    → offered (action to_text s ++ marks pipeline)
      ≡ (if s.is_optimized then [] else if s.is_applying then [] else applies ∷ [])
unfolding action offered pipeline
offered-action to_text s = elim (Bool-cases s.is_optimized) [
  | inl e ↦ rw e refl
  | inr e ↦ elim (Bool-cases s.is_applying) [ inl f ↦ rw (e, f) refl | inr f ↦ rw (e, f) refl ]
]

offered-header :
    (s : State) (is : List (Item Click))
    → offered (header s ++ is) ≡ (if s.is_optimized then resets ∷ offered is else offered is)
unfolding header offered
offered-header s is = elim (Bool-cases s.is_optimized) [ inl e ↦ rw e refl | inr e ↦ rw e refl ]

pub offered-view : (to_text : ℕ → String) (s : State) → offered (view to_text s) ≡ choices s
unfolding view
offered-view to_text s =
    let below : List (Item Click) = action to_text s ++ marks pipeline in
    rw
      (
        offered-header s (marks (lanes to_text s) ++ (marks (recommendation s) ++ below)),
        offered-marks (lanes to_text s) (marks (recommendation s) ++ below),
        offered-marks (recommendation s) below,
        offered-action to_text s,
      )
      (by_cases s.is_optimized s.is_applying)
  where
    by_cases :
        (o a : Bool)
        → (if o
            then resets ∷ (if o then [] else if a then [] else applies ∷ [])
            else if o
            then []
            else if a
            then []
            else applies ∷ [])
          ≡ (if o then resets ∷ [] else if a then [] else applies ∷ [])
    by_cases true a = refl
    by_cases false a = refl

-- The states of the control: waiting for a click, counting down with its interval running, or optimized.
pub data Phase (s : State) : Type 0 where
  waits :
      s.is_applying ≡ false
      → s.is_optimized ≡ false
      → s.countdown ≡ none
      → s.running ≡ false
      → Phase s
  counts :
      (n : ℕ)
      → s.is_applying ≡ true
      → s.is_optimized ≡ false
      → s.countdown ≡ some n
      → (1 ≤ n) × (n ≤ 3)
      → s.running ≡ true
      → Phase s
  ends :
      s.is_applying ≡ false
      → s.is_optimized ≡ true
      → s.countdown ≡ none
      → s.running ≡ false
      → Phase s

press-choices :
    (to_text : ℕ → String) (c : Click) (s : State)
    → press to_text c s ≡ (if any (same_click c) (choices s) then handle c s else s)
unfolding press
press-choices to_text c s = rw (offered-view to_text s) refl

press-Phase : (to_text : ℕ → String) (c : Click) (s : State) → Phase s → Phase (press to_text c s)
unfolding handle_apply_recommendation handle_reset
press-Phase to_text applies s (waits a o c r) =
    rw (press-choices to_text applies s, o, a)
      (counts 3 refl refl refl (omega arith, omega arith) refl)
press-Phase to_text applies s (counts n a o c b r) =
    rw (press-choices to_text applies s, o, a) (counts n refl refl c b r)
press-Phase to_text applies s (ends a o c r) =
    rw (press-choices to_text applies s, o) (ends a refl c r)
press-Phase to_text resets s (waits a o c r) =
    rw (press-choices to_text resets s, o, a) (waits refl refl c r)
press-Phase to_text resets s (counts n a o c b r) =
    rw (press-choices to_text resets s, o, a) (counts n refl refl c b r)
press-Phase to_text resets s (ends a o c r) =
    rw (press-choices to_text resets s, o) (waits a refl c r)

tick-Phase : (s : State) → Phase s → Phase (tick s)
unfolding tick
tick-Phase s (waits a o c r) = rw r (waits a o c refl)
tick-Phase s (ends a o c r) = rw r (ends a o c refl)
tick-Phase s (counts n a o c b r) = elim (Bool-cases (leb n 1)) [
  | inl e ↦ rw (r, c, e) (ends refl refl refl refl)
  | inr e ↦ rw (r, c, e) (counts (n - 1) a o refl (ground (arith, e, b), ground (arith, b)) r)
]

run-Phase :
    (to_text : ℕ → String) (s : State) (es : List Event) → Phase s → Phase (run to_text s es)
unfolding run step
run-Phase to_text s [] h = h
run-Phase to_text s (clicks c ∷ es) h =
    run-Phase to_text (press to_text c s) es (press-Phase to_text c s h)
run-Phase to_text s (ticks ∷ es) h = run-Phase to_text (tick s) es (tick-Phase s h)

initial-Phase : Phase initial
unfolding initial
initial-Phase = waits refl refl refl refl

-- Whatever offered buttons are clicked and however the ticks fall, the signal control waits, or counts
-- down between three and one with its interval running, or shows the signal optimized; and it offers to
-- apply, nothing, or to reset, in this order.
pub run_control-Phase :
    (to_text : ℕ → String) (es : List Event)
    → Phase (run to_text initial es)
      × (offered (view to_text (run to_text initial es)) ≡ choices (run to_text initial es))
run_control-Phase to_text es =
    (run-Phase to_text initial es initial-Phase, offered-view to_text (run to_text initial es))
