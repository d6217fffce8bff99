-- ===== src/Signals/Tests.antt =====
-- The signal control page at concrete inputs.
use surakshanet.Base.{◌≡◌, refl, none, some, List, [], ◌∷◌}
use surakshanet.Signals.{Message, initial, webster, on_message, on_plan, describe, marl_tick}
use surakshanet.Signals.Control.{Event, receives, plans, reports, run, step}

abbrev override_message : Message
override_message = record {
  action = some "FLASH";
  kind = some "SIGNAL_OVERRIDE";
  junction_id = none;
  mode = none;
  queue = none;
  speed = none;
  json = "{}";
}

abbrev events : List Event
events =
    receives "10:00:00" override_message
    ∷ plans (some (record { mode = some "webster"; junction_name = none }))
    ∷ reports "skipped"
    ∷ []

described :
    describe "10:00:00" override_message ≡ "[10:00:00] 🎛 MANUAL OVERRIDE: FLASH on Node undefined"
unfolding describe
described = refl

planned : (run (λ s. s) initial events).active_control ≡ webster
unfolding run step initial on_message on_plan marl_tick describe
planned = refl
