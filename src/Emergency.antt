-- ===== src/Emergency.antt =====
-- frontend/dashboard/src/pages/EmergencyPage.tsx: the state of the page and its handlers. Toasts and
-- console output are left out; what the server answers is an argument.
pub mod Corridor
pub mod Steps
pub mod View
mod Tests
use surakshanet.Base.{
  ℕ, zero, suc, ◌+◌, ◌-◌, String, Bool, true, false, not, Option, none, some, List, [], ◌∷◌, ltb,
  min, max, if◌then◌else◌, or_else, length, count, str_eq,
}

pub data EmergencyType : Type 0 where
  ambulance fire police : EmergencyType

pub data Status : Type 0 where
  cleared active_green pre_empting standard : Status

pub record JunctionStatus : Type 0 where
  pub id : String
  pub name : String
  pub status : Status
  pub time : Option String
  pub eta : Option String
  pub dist : Option String

abbrev junction : String → String → Status → String → String → JunctionStatus
junction id name status eta dist = record {
  id = id;
  name = name;
  status = status;
  time = none;
  eta = some eta;
  dist = some dist;
}

abbrev pub default_route_junctions : List JunctionStatus
default_route_junctions =
    junction "DEL-CP-01" "Connaught Place Outer Circle" active_green "45s" "0.8km"
    ∷ junction "DEL-ITO-02" "ITO Crossing - Vikas Marg" pre_empting "2m 10s" "2.1km"
    ∷ junction "DEL-ASH-04" "Ashram Chowk - Mathura Road" standard "4m 30s" "4.5km"
    ∷ junction "DEL-LAJ-06" "Lajpat Nagar Ring Road" standard "6m 15s" "6.2km"
    ∷ junction "DEL-AIIMS-03" "AIIMS Flyover - Ring Road" standard "8m 40s" "8.9km"
    ∷ []

pub record Page : Type 0 where
  pub selected_type : EmergencyType
  pub is_activated : Bool
  pub active_event_id : Option String
  pub junctions : List JunctionStatus
  pub speed : ℕ
  pub origin : String
  pub destination : String

unfoldable pub initial : Page
initial = record {
  selected_type = ambulance;
  is_activated = false;
  active_event_id = none;
  junctions = default_route_junctions;
  speed = 68;
  origin = "Connaught Place Outer Circle";
  destination = "AIIMS Flyover - Ring Road";
}

abbrev pub is_active_green : Status → Bool
is_active_green active_green = true
is_active_green _ = false

abbrev pub is_cleared : Status → Bool
is_cleared cleared = true
is_cleared _ = false

abbrev pub one_later : Option ℕ → Option ℕ
one_later none = none
one_later (some i) = some (suc i)

-- `findIndex(j => j.status === 'ACTIVE_GREEN')`, none for -1.
abbrev pub active_index : List JunctionStatus → Option ℕ
active_index [] = none
active_index (j ∷ js) = if is_active_green j.status then some 0 else one_later (active_index js)

-- `next[i] = f(next[i])`, which the code does only within bounds.
abbrev pub modify :
    ℕ → (JunctionStatus → JunctionStatus) → List JunctionStatus → List JunctionStatus
modify i f [] = []
modify zero f (j ∷ js) = f j ∷ js
modify (suc i) f (j ∷ js) = j ∷ modify i f js

abbrev pub clear : String → JunctionStatus → JunctionStatus
clear now j = record j { status = cleared; time = some now }

abbrev pub turn_green : JunctionStatus → JunctionStatus
turn_green j = record j { status = active_green; eta = some "45s"; dist = some "0.8km" }

abbrev pub pre_empt : JunctionStatus → JunctionStatus
pre_empt j = record j { status = pre_empting; eta = some "2m 10s"; dist = some "2.1km" }

abbrev pub within :
    ℕ → (JunctionStatus → JunctionStatus) → List JunctionStatus → List JunctionStatus
within i f js = if ltb i (length js) then modify i f js else js

-- One tick of `progressionInterval`, at the time of day `now`.
unfoldable pub advance : String → List JunctionStatus → List JunctionStatus
advance now prev = elim (active_index prev) [
  | none ↦ prev
  | some i ↦ within (i + 2) pre_empt (within (i + 1) turn_green (modify i (clear now) prev))
]

-- One tick of `speedInterval`; `draw` is `Math.floor(Math.random() * 5)`. What the subtraction cuts
-- off at 0 is below 50.
unfoldable pub vary_speed : ℕ → ℕ → ℕ
vary_speed draw prev = max 50 (min 95 (prev + draw - 2))

unfoldable pub cleared_count : List JunctionStatus → ℕ
cleared_count = count (λ j. is_cleared j.status)

-- What a request to activate brings: the two ids of the answer, or an error.
pub data Answer : Type 0 where
  answers : Option String → Option String → Answer
  fails : Answer

-- The fallback by `fetch`: `resp.ok` and the id of the answer, or an exception.
pub data Fallback : Type 0 where
  responds : Bool → Option String → Fallback
  throws : Fallback

-- `a || b` on strings that may be missing.
abbrev pub or_text : Option String → String → String
or_text none d = d
or_text (some t) d = if str_eq t "" then d else t

-- `handleToggleCorridor` on a page that is not activated: the event's id if one of the two requests
-- succeeds.
unfoldable pub activation : Answer → Fallback → Option String
activation (answers event_id id) fb = some (or_text event_id (or_text id "emergency-active"))
activation fails (responds true event_id) = some (or_text event_id "emergency-active")
activation fails (responds false event_id) = none
activation fails throws = none

unfoldable pub finish_activation : Answer → Fallback → Page → Page
finish_activation a fb p = elim (activation a fb) [
  | none ↦ p
  | some event_id ↦ record p { active_event_id = some event_id; is_activated = true }
]

-- The rest of it on an activated page. Both requests' outcomes are ignored.
unfoldable pub finish_deactivation : Page → Page
finish_deactivation p = record p {
  is_activated = false;
  active_event_id = none;
  junctions = default_route_junctions;
}

-- The id that is sent to the server: `activeEventId || "latest"`.
unfoldable pub deactivated_id : Page → String
deactivated_id p = or_text p.active_event_id "latest"

-- A message on the channel `emergency`.
pub data Message : Type 0 where
  emergency_activated : Option String → Message
  emergency_deactivated other : Message

unfoldable pub on_message : Message → Page → Page
on_message (emergency_activated none) p = record p { is_activated = true }
on_message (emergency_activated (some id)) p = record p {
  is_activated = true;
  active_event_id = if str_eq id "" then p.active_event_id else some id;
}
on_message emergency_deactivated p = record p {
  is_activated = false;
  active_event_id = none;
  junctions = default_route_junctions;
}
on_message other p = p

-- The answer of `api.emergency.getStatus()` on mount: the ids of the active events.
unfoldable pub on_status : List String → Page → Page
on_status [] p = p
on_status (id ∷ ids) p = record p { is_activated = true; active_event_id = some id }

unfoldable pub handle_swap : Page → Page
handle_swap p = record p { origin = p.destination; destination = p.origin }

-- The two intervals run while the page is activated.
unfoldable pub progression_tick : String → Page → Page
progression_tick now p =
    if p.is_activated then record p { junctions = advance now p.junctions } else p

unfoldable pub speed_tick : ℕ → Page → Page
speed_tick draw p = if p.is_activated then record p { speed = vary_speed draw p.speed } else p
