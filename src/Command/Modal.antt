-- ===== src/Command/Modal.antt =====
-- frontend/dashboard/src/components/CommandCenter/GlobalEmergencyModal.tsx. A click on a button that is
-- disabled, or not shown, does nothing.
pub mod View
pub mod Confirmed
use surakshanet.Base.{
  ℕ, zero, suc, ◌+◌, ◌-◌, ◌≡◌, refl, ap, ◌∙◌, Bool, true, false, not, ◌&&◌, ◌||◌, Option, none,
  some, List, [], ◌∷◌, ◌++◌, if◌then◌else◌, is_some, arith,
}

pub data EmergencyAction : Type 0 where
  green_corridor all_red : EmergencyAction

pub record Modal : Type 0 where
  pub is_open : Bool
  pub selected_action : Option EmergencyAction
  pub is_confirming : Bool
  pub is_activated : Bool
  -- the timeouts of `handleActivate` that have not fired
  pub timers : ℕ

unfoldable pub initial : Modal
initial = record {
  is_open = false;
  selected_action = none;
  is_confirming = false;
  is_activated = false;
  timers = 0;
}

unfoldable pub handle_activate : Modal → Modal
handle_activate m = record m { is_confirming = true; timers = suc m.timers }

unfoldable pub activate_fires : Modal → Modal
activate_fires m = elim m.timers [
  | zero ↦ m
  | suc n ↦ record m { is_activated = true; is_confirming = false; timers = n }
]

unfoldable pub handle_reset : Modal → Modal
handle_reset m = record m {
  selected_action = none;
  is_activated = false;
  is_confirming = false;
  is_open = false;
}

unfoldable pub select_click : EmergencyAction → Modal → Modal
select_click action m =
    if m.is_open && not m.is_activated then record m { selected_action = some action } else m

-- Whether the button that confirms is disabled.
abbrev pub confirm_disabled : Modal → Bool
confirm_disabled m = not (is_some m.selected_action) || m.is_confirming

unfoldable pub activate_click : Modal → Modal
activate_click m =
    if m.is_open && not m.is_activated && not (confirm_disabled m) then handle_activate m else m

-- `onClose` of the header, which the buttons to cancel and to close call.
unfoldable pub close : Modal → Modal
close m = record m { is_open = false }

unfoldable pub open_modal : Modal → Modal
open_modal m = record m { is_open = true }

pub data Event : Type 0 where
  opens cancels activates fires resets : Event
  selects : EmergencyAction → Event

unfoldable pub step : Modal → Event → Modal
step m opens = open_modal m
step m cancels = close m
step m activates = activate_click m
step m fires = activate_fires m
step m resets = if m.is_open && m.is_activated then handle_reset m else m
step m (selects action) = select_click action m

unfoldable pub run : Modal → List Event → Modal
run m [] = m
run m (e ∷ es) = run (step m e) es
