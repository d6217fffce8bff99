-- ===== src/Command/Modal/Confirmed.antt =====
-- How the modal of frontend/dashboard/src/components/CommandCenter/GlobalEmergencyModal.tsx comes to be
-- active, over any events.
use surakshanet.Base.{
  ℕ, ◌+◌, ◌-◌, ◌≡◌, refl, ap, ◌∙◌, Bool, true, false, Option, none, some, List, [], ◌∷◌, ◌++◌,
  arith,
}
use mathlib.Core.Bool.{false≢true}
use surakshanet.Command.Modal.{
  EmergencyAction, Modal, initial, handle_activate, activate_fires, handle_reset, select_click,
  activate_click, close, open_modal, Event, opens, cancels, activates, fires, resets, selects, step,
  run,
}

-- Confirming takes a choice and exactly one timeout; activated takes a choice and none.
pub data Valid : Modal → Type 0 where
  idle :
      {o : Bool} {a : Option EmergencyAction}
      → Valid (record {
        is_open = o;
        selected_action = a;
        is_confirming = false;
        is_activated = false;
        timers = 0;
      })
  confirming :
      {o : Bool} {a : EmergencyAction}
      → Valid (record {
        is_open = o;
        selected_action = some a;
        is_confirming = true;
        is_activated = false;
        timers = 1;
      })
  active :
      {o : Bool} {a : EmergencyAction}
      → Valid (record {
        is_open = o;
        selected_action = some a;
        is_confirming = false;
        is_activated = true;
        timers = 0;
      })

step-Valid : (m : Modal) (e : Event) → Valid m → Valid (step m e)
unfolding step open_modal close activate_click handle_activate activate_fires handle_reset
    select_click
step-Valid m opens idle = idle
step-Valid m opens confirming = confirming
step-Valid m opens active = active
step-Valid m cancels idle = idle
step-Valid m cancels confirming = confirming
step-Valid m cancels active = active
step-Valid m fires idle = idle
step-Valid m fires confirming = active
step-Valid m fires active = active
step-Valid m activates (idle {o = true} {a = some b}) = confirming
step-Valid m activates (idle {o = true} {a = none}) = idle
step-Valid m activates (idle {o = false}) = idle
step-Valid m activates (confirming {o = true}) = confirming
step-Valid m activates (confirming {o = false}) = confirming
step-Valid m activates (active {o = true}) = active
step-Valid m activates (active {o = false}) = active
step-Valid m resets (idle {o = true}) = idle
step-Valid m resets (idle {o = false}) = idle
step-Valid m resets (confirming {o = true}) = confirming
step-Valid m resets (confirming {o = false}) = confirming
step-Valid m resets (active {o = true}) = idle
step-Valid m resets (active {o = false}) = active
step-Valid m (selects b) (idle {o = true}) = idle
step-Valid m (selects b) (idle {o = false}) = idle
step-Valid m (selects b) (confirming {o = true}) = confirming
step-Valid m (selects b) (confirming {o = false}) = confirming
step-Valid m (selects b) (active {o = true}) = active
step-Valid m (selects b) (active {o = false}) = active

-- The clicks to confirm that start a timeout, and the times that the modal becomes active.
abbrev pub confirmed : Modal → List Event → ℕ
confirmed m [] = 0
confirmed m (e ∷ es) = ((step m e).timers - m.timers) + confirmed (step m e) es

abbrev pub becomes_active : Bool → Bool → ℕ
becomes_active false true = 1
becomes_active _ _ = 0

abbrev pub activations : Modal → List Event → ℕ
activations m [] = 0
activations m (e ∷ es) =
    becomes_active m.is_activated (step m e).is_activated + activations (step m e) es

-- A timeout that starts is the only one, and one that fires makes the modal active.
step-timers :
    (m : Modal) (e : Event)
    → Valid m
    → ((step m e).timers - m.timers) + m.timers
      ≡ becomes_active m.is_activated (step m e).is_activated + (step m e).timers
unfolding step open_modal close activate_click handle_activate activate_fires handle_reset
    select_click
step-timers m opens idle = refl
step-timers m opens confirming = refl
step-timers m opens active = refl
step-timers m cancels idle = refl
step-timers m cancels confirming = refl
step-timers m cancels active = refl
step-timers m fires idle = refl
step-timers m fires confirming = refl
step-timers m fires active = refl
step-timers m activates (idle {o = true} {a = some b}) = refl
step-timers m activates (idle {o = true} {a = none}) = refl
step-timers m activates (idle {o = false}) = refl
step-timers m activates (confirming {o = true}) = refl
step-timers m activates (confirming {o = false}) = refl
step-timers m activates (active {o = true}) = refl
step-timers m activates (active {o = false}) = refl
step-timers m resets (idle {o = true}) = refl
step-timers m resets (idle {o = false}) = refl
step-timers m resets (confirming {o = true}) = refl
step-timers m resets (confirming {o = false}) = refl
step-timers m resets (active {o = true}) = refl
step-timers m resets (active {o = false}) = refl
step-timers m (selects b) (idle {o = true}) = refl
step-timers m (selects b) (idle {o = false}) = refl
step-timers m (selects b) (confirming {o = true}) = refl
step-timers m (selects b) (confirming {o = false}) = refl
step-timers m (selects b) (active {o = true}) = refl
step-timers m (selects b) (active {o = false}) = refl

run-timers :
    (m : Modal) (es : List Event)
    → Valid m
    → Valid (run m es) × (confirmed m es + m.timers ≡ activations m es + (run m es).timers)
unfolding run
run-timers m [] v = (v, refl)
run-timers m (e ∷ es) v =
    let (valid, rest) = run-timers (step m e) es (step-Valid m e v) in
    (valid, omega (arith, rest, step-timers m e v))

pub run_modal-Valid :
    (es : List Event)
    → Valid (run initial es)
      × (confirmed initial es ≡ activations initial es + (run initial es).timers)
unfolding initial
run_modal-Valid es =
    let (valid, count) = run-timers initial es idle in (valid, omega (arith, count))

run-append : (m : Modal) (es later : List Event) → run m (es ++ later) ≡ run (run m es) later
unfolding run
run-append m [] later = refl
run-append m (e ∷ es) later = run-append (step m e) es later

choice_replaced :
    (m : Modal) (b : EmergencyAction)
    → Valid m
    → m.is_open ≡ true
    → m.is_confirming ≡ true
    → run m (selects b ∷ fires ∷ []) ≡ record m {
      selected_action = some b;
      is_confirming = false;
      is_activated = true;
      timers = 0;
    }
unfolding run step select_click activate_fires
choice_replaced m b (confirming {o = true}) o c = refl
choice_replaced m b (confirming {o = false}) o c = absurd (false≢true o)
choice_replaced m b idle o c = absurd (false≢true c)
choice_replaced m b active o c = absurd (false≢true c)

not_confirmed :
    (m : Modal) (b : EmergencyAction) → Valid m → confirmed m (selects b ∷ fires ∷ []) ≡ 0
unfolding step select_click activate_fires
not_confirmed m b (idle {o = true}) = refl
not_confirmed m b (idle {o = false}) = refl
not_confirmed m b (confirming {o = true}) = refl
not_confirmed m b (confirming {o = false}) = refl
not_confirmed m b (active {o = true}) = refl
not_confirmed m b (active {o = false}) = refl

-- The choice can be changed while the modal confirms it: after any events, if the modal is open and
-- confirming, a click on either card before the timeout fires makes the protocol of that card the active
-- one, with no further click to confirm.
pub unconfirmed_choice :
    (es : List Event) (b : EmergencyAction)
    → (run initial es).is_open ≡ true
    → (run initial es).is_confirming ≡ true
    → let m = run initial (es ++ selects b ∷ fires ∷ []) in
      (m.is_activated ≡ true)
      × (m.selected_action ≡ some b)
      × (confirmed (run initial es) (selects b ∷ fires ∷ []) ≡ 0)
unfolding initial
unconfirmed_choice es b o c =
    let m : Modal = run initial es in
    let replaced = choice_replaced m b (run_modal-Valid es).0 o c in
    let all' = run-append initial es (selects b ∷ fires ∷ []) ∙ replaced in
    (
      ap (λ q. q.is_activated) all',
      ap (λ q. q.selected_action) all',
      not_confirmed m b (run_modal-Valid es).0,
    )
