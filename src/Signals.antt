-- ===== src/Signals.antt =====
-- frontend/dashboard/src/pages/SignalControlPage.tsx: the state of the signal control page and its
-- handlers, which return their requests and toasts. What the server sends is an argument, and an
-- entry of the telemetry is its text. `to_lower` is `toLowerCase`. Console output is left out.
pub mod Control
pub mod View
mod Tests
use surakshanet.Base.{
  ℕ, String, Bool, true, false, not, ◌&&◌, ◌||◌, Option, none, some, List, [], ◌∷◌, str_eq,
  if◌then◌else◌, or_else, take, length, find?, ◌<>◌,
}
use surakshanet.Stores.Types.{Junction}

pub data Mode : Type 0 where
  marl webster manual : Mode

pub record Plan : Type 0 where
  pub mode : Option String
  pub junction_name : Option String

pub record Page : Type 0 where
  pub selected_junction_id : String
  pub active_plan : Option Plan
  pub active_control : Mode
  pub is_dropdown_open : Bool
  pub telemetry : List String

abbrev pub first_telemetry : List String
first_telemetry =
    "[SUMO/TraCI] Dynamic Bridge: Real-time signal actuator connected"
    ∷ "[T-15.2s] State Evaluated Queue: 38veh\n→ ACTION: Maintain Phase 1"
    ∷ "[T-12.0s] Reward Calculated    Prev Action: Ph1+2s\nΣ REWARD: +14.2 (Delay Reduced)"
    ∷ "[T-4.5s] Phase Transition Current: Ph1\n⏱ ACTION: Trigger Amber (3.0s)\nConstraint: MinGreen Met"
    ∷ "[T-0.1s] State Evaluated Queue: 42veh\n→ ACTION: Extend Phase 2 (N-S Straight) by 5.0s\nQ-Value: 0.892  Conf: 92%"
    ∷ []

unfoldable pub initial : Page
initial = record {
  selected_junction_id = "J0";
  active_plan = none;
  active_control = marl;
  is_dropdown_open = false;
  telemetry = first_telemetry;
}

-- `[entry, ...prev.slice(0, 25)]`
abbrev pub log : String → Page → Page
log entry p = record p { telemetry = entry ∷ take 25 p.telemetry }

-- The first of the junctions, which the store holds or, if it holds none, the server sends.
unfoldable pub select_first : Option String → Option String → Page → Page
select_first (some id) answer p =
    if str_eq p.selected_junction_id "J0" || str_eq p.selected_junction_id ""
    then record p { selected_junction_id = id }
    else p
select_first none (some id) p = record p { selected_junction_id = id }
select_first none none p = p

-- A message on the channel "signals". The numbers are already texts, and `json` is the whole message.
pub record Message : Type 0 where
  pub action : Option String
  pub kind : Option String
  pub junction_id : Option String
  pub mode : Option String
  pub queue : Option String
  pub speed : Option String
  pub json : String

abbrev pub present : Option String → Bool
present none = false
present (some s) = not (str_eq s "")

-- What a template literal makes of a field.
abbrev pub text_of : Option String → String
text_of s = or_else s "undefined"

abbrev pub is_kind : String → Message → Bool
is_kind kind m = elim m.kind [ none ↦ false | some k ↦ str_eq k kind ]

abbrev pub speed_text : Option String → String
speed_text none = "35 km/h"
speed_text (some speed) = speed <> " km/h"

unfoldable pub describe : String → Message → String
describe now m =
    if present m.action && present m.junction_id
    then "["
      <> (now
          <> ("] ⚡ "
              <> (text_of m.action
                  <> ("\nQueue: "
                      <> (or_else m.queue "0" <> ("veh | Speed: " <> speed_text m.speed))))))
    else if is_kind "SIGNAL_OVERRIDE" m
    then "["
      <> (now
          <> ("] 🎛 MANUAL OVERRIDE: "
              <> (text_of m.action <> (" on Node " <> text_of m.junction_id))))
    else if is_kind "SIGNAL_MODE_CHANGED" m
    then "["
      <> (now
          <> ("] 🔄 MODE CHANGED: " <> (text_of m.mode <> (" on Node " <> text_of m.junction_id))))
    else "[" <> (now <> ("] Telemetry update: " <> m.json))

unfoldable pub on_message : String → Message → Page → Page
on_message now m p = if present m.action || present m.kind then log (describe now m) p else p

abbrev pub mode_of : String → Option Mode
mode_of s =
    if str_eq s "marl"
    then some marl
    else if str_eq s "webster"
    then some webster
    else if str_eq s "manual"
    then some manual
    else none

-- `(mode || 'MARL')`
abbrev pub plan_mode : Plan → String
plan_mode plan = if present plan.mode then or_else plan.mode "MARL" else "MARL"

-- What `getByJunction` brings, none for an error.
unfoldable pub on_plan : (String → String) → Option Plan → Page → Page
on_plan to_lower none p = p
on_plan to_lower (some plan) p = record p {
  active_plan = some plan;
  active_control = or_else (mode_of (to_lower (plan_mode plan))) p.active_control;
}

-- The periodic entry, which only runs in MARL mode.
unfoldable pub marl_tick : String → Page → Page
marl_tick entry p = elim p.active_control [ marl ↦ log entry p | webster ↦ p | manual ↦ p ]

-- `accepted` says whether the server's answer is a success.
abbrev pub target : Page → String
target p = if str_eq p.selected_junction_id "" then "J0" else p.selected_junction_id

pub data Effect : Type 0 where
  -- requests through axios, and by `fetch` where that fails
  set_mode override fetch_mode fetch_override : String → String → Effect
  succeeds : String → Effect

abbrev pub mode_name : Mode → String
mode_name marl = "MARL"
mode_name webster = "WEBSTER"
mode_name manual = "MANUAL"

-- The handlers return what they do outside the page, in order.
unfoldable pub handle_mode_change : Mode → Bool → Page → Page × List Effect
handle_mode_change mode accepted p =
    let said = succeeds ("Signal mode switched to " <> mode_name mode) in
    (
      record p { active_control = mode },
      if accepted
          then set_mode (target p) (mode_name mode) ∷ said ∷ []
          else set_mode (target p) (mode_name mode)
            ∷ fetch_mode (target p) (mode_name mode)
            ∷ said
            ∷ [],
    )

-- `answer` is the status that the server sends, none for an error.
unfoldable pub handle_override : String → Option String → Page → Page × List Effect
handle_override action answer p = (
  log ("[MANUAL OVERRIDE] Sent: " <> (action <> (" to SUMO " <> target p))) p,
  elim answer [
    | some status ↦
        override (target p) action
        ∷ succeeds ("Action Executed: " <> (action <> (" (" <> (status <> ")"))))
        ∷ []
    | none ↦
        override (target p) action
        ∷ fetch_override (target p) action
        ∷ succeeds ("Action Executed: " <> action)
        ∷ []
  ],
)

abbrev default_name : String
default_name = "Connaught Place Outer Circle"

-- `a?.name || b?.junction_name || default`
unfoldable pub selected_junction_name : {F : Type 0} → List (Junction F) → Page → String
selected_junction_name store p = elim (find? (λ j. str_eq j.id p.selected_junction_id) store) [
  | some j ↦ if str_eq j.name "" then plan_name p.active_plan else j.name
  | none ↦ plan_name p.active_plan
]
  where
    plan_name : Option Plan → String
    plan_name none = default_name
    plan_name (some plan) =
        if present plan.junction_name then or_else plan.junction_name default_name else default_name
