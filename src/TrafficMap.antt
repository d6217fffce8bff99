-- ===== src/TrafficMap.antt =====
-- frontend/dashboard/src/pages/TrafficMapPage.tsx: the state of the map page, its two message handlers,
-- its clock and what it makes of the store's junctions. Speeds are tenths of km/h, as `toFixed(1)` makes
-- them. `to_text` is the text of a number, and what a message leaves out is none.
mod Data
pub mod Pulse
pub mod Feed
pub mod View
mod Tests
pub use Data.*
use surakshanet.Base.{
  ℕ, zero, suc, ◌+◌, ◌-◌, ◌*◌, ◌/◌, ◌%◌, String, Bool, true, false, not, ◌&&◌, ◌||◌, Option, none,
  some, List, [], ◌∷◌, map, ltb, ◌==◌, str_eq, if◌then◌else◌, or_else, length, get_elem?, take,
  filter, min, max, ◌<>◌, includes,
}
use surakshanet.Stores.Types.{Junction}

unfoldable pub initial : Page ℕ
initial = record {
  is_playing = true;
  total_vehicles = 1248;
  avg_speed = 318;
  throughput = 1185;
  network_los = "C Fair Flow";
  active_alerts = 2;
  is_twin_connected = false;
  last_step_received = none;
  junctions_data = default_junctions;
  feed_events = first_events;
}

abbrev pub status_of : Bool → Status
status_of is_congested = if is_congested then congested else normal

-- `[event, ...prev.slice(0, 5)]`
abbrev pub push : FeedEvent → List FeedEvent → List FeedEvent
push event prev = event ∷ take 5 prev

-- `data.junction_id ? data.junction_id : 'Node'`
abbrev pub node_of : Option String → String
node_of none = "Node"
node_of (some id) = if str_eq id "" then "Node" else id

module _ {F : Type 0} where
  abbrev pub show_sumo : Option SumoJunction → Pin F → Pin F
  show_sumo none j = j
  show_sumo (some s) j = record j {
    queue = s.queue;
    speed = s.speed;
    pcu = s.pcu;
    status = status_of s.is_congested;
  }

  -- The pins from index `idx` on; `idx % 0` is not reached, as the code tests the length first.
  abbrev pub merge : List SumoJunction → ℕ → List (Pin F) → List (Pin F)
  merge sumo idx [] = []
  merge sumo idx (j ∷ js) =
      show_sumo (get_elem? sumo (idx % length sumo)) j ∷ merge sumo (suc idx) js

module _ (to_text : ℕ → String) where
  -- What a template literal makes of a field that may be missing.
  abbrev pub text_of : Option ℕ → String
  text_of none = "undefined"
  text_of (some n) = to_text n

  abbrev pub step_event : ℕ → TrafficMessage → FeedEvent
  step_event step m =
      feed_event ("step-" <> to_text step) ("TraCI Step " <> (to_text step <> " Synced")) "Just now"
        (text_of m.total_vehicles
          <> (" vehicles active | Avg "
              <> (text_of m.avg_speed <> (" km/h | LOS " <> or_else m.network_los "undefined"))))
        activity "text-sky-600" "bg-sky-50"

  abbrev pub signal_event : ℕ → String → Option String → FeedEvent
  signal_event now action junction_id =
      feed_event (to_text now) ("Signal Override: " <> action) "Just now"
        ("Junction " <> (node_of junction_id <> (": " <> action))) zap "text-teal-600" "bg-teal-50"

  -- `data.step && data.step % 10 === 0`
  abbrev pub log_step : TrafficMessage → Option ℕ → List FeedEvent → List FeedEvent
  log_step m none prev = prev
  log_step m (some n) prev =
      if not (n == 0) && (n % 10 == 0) then push (step_event n m) prev else prev

module _ {F : Type 0} (to_text : ℕ → String) where
  unfoldable pub on_traffic : TrafficMessage → Page F → Page F
  on_traffic m p = record p {
    is_twin_connected = true;
    last_step_received = elim m.step [ none ↦ p.last_step_received | some n ↦ some n ];
    total_vehicles = or_else m.total_vehicles p.total_vehicles;
    avg_speed = or_else m.avg_speed p.avg_speed;
    throughput = or_else m.throughput p.throughput;
    network_los = or_else m.network_los p.network_los;
    active_alerts = or_else m.active_alerts p.active_alerts;
    junctions_data =
        if ltb 0 (length m.junctions)
        then merge m.junctions 0 p.junctions_data
        else p.junctions_data;
    feed_events = log_step to_text m m.step p.feed_events;
  }

  -- A message on the channel "signals", at the time `now`.
  unfoldable pub on_signals : ℕ → Option String → Option String → Page F → Page F
  on_signals now none junction_id p = p
  on_signals now (some action) junction_id p = if str_eq action "" then p else record p {
    feed_events = push (signal_event to_text now action junction_id) p.feed_events;
  }

-- The draws of one pin in a second without the twin: `speed` is the tenths of `Math.random() * 2`,
-- and `queue` what `Math.random() * 4` comes to when the sum is rounded.
pub record Draw : Type 0 where
  pub speed : ℕ
  pub queue : ℕ

-- `Math.max(lo, Math.min(hi, prev + draw - half))`; what the subtraction cuts off at 0 is below `lo`.
abbrev pub clamped : ℕ → ℕ → ℕ → ℕ → ℕ → ℕ
clamped lo hi half draw prev = max lo (min hi (prev + draw - half))

module _ {F : Type 0} where
  abbrev pub measured : ℕ → ℕ → Pin F → Pin F
  measured speed queue j = record j {
    speed = speed;
    queue = queue;
    -- `Math.round(queue * 5.5 + speed * 8)`
    pcu = (queue * 55 + speed * 8 + 5) / 10;
    status = status_of (ltb 50 queue || ltb speed 180);
  }

  abbrev pub drift : Draw → Pin F → Pin F
  drift d j = measured (clamped 80 550 10 d.speed j.speed) (clamped 2 130 2 d.queue j.queue) j

  -- Each pin with the draws that belong to its place.
  abbrev pub drift_pins : (ℕ → Draw) → ℕ → List (Pin F) → List (Pin F)
  drift_pins draws idx [] = []
  drift_pins draws idx (j ∷ js) = drift (draws idx) j ∷ drift_pins draws (suc idx) js

  -- One second of the clock, with the draws for vehicles, speed, throughput and the pins. The clock
  -- that is shown is left out.
  unfoldable pub pulse : ℕ → ℕ → ℕ → (ℕ → Draw) → Page F → Page F
  pulse vehicles speed throughput draws p =
      if p.is_playing && not p.is_twin_connected
      then record p {
        total_vehicles = max 800 (p.total_vehicles + vehicles - 4);
        avg_speed = clamped 120 480 6 speed p.avg_speed;
        throughput = clamped 600 1800 7 throughput p.throughput;
        junctions_data = drift_pins draws 0 p.junctions_data;
      }
      else p

  unfoldable pub toggle_playing : Page F → Page F
  toggle_playing p = record p { is_playing = not p.is_playing }

  -- A junction of the store, with what is live at its place.
  abbrev pub based : Option (Pin F) → ℕ → Junction F → Pin F
  based none idx j = record {
    id = j.id;
    name = j.name;
    lat = j.latitude;
    lng = j.longitude;
    status = status_of (idx % 3 == 0);
    is_marl = idx % 2 == 0;
    pcu = 320;
    speed = 285;
    queue = 18;
  }
  based (some live) idx j = record {
    id = j.id;
    name = j.name;
    lat = j.latitude;
    lng = j.longitude;
    status = live.status;
    is_marl = idx % 2 == 0;
    pcu = live.pcu;
    speed = live.speed;
    queue = live.queue;
  }

  abbrev pub based_from : List (Pin F) → ℕ → List (Junction F) → List (Pin F)
  based_from lives idx [] = []
  based_from lives idx (j ∷ js) =
      based (get_elem? lives (idx % length lives)) idx j ∷ based_from lives (suc idx) js

  unfoldable pub base_junctions : List (Junction F) → Page F → List (Pin F)
  base_junctions store p =
      if ltb 0 (length store) then based_from p.junctions_data 0 store else p.junctions_data

  -- `to_lower` is `toLowerCase`.
  unfoldable pub filtered_junctions :
      (String → String) → String → List (Junction F) → Page F → List (Pin F)
  filtered_junctions to_lower search_term store p =
      filter
        (λ j.
          includes (to_lower j.name) (to_lower search_term)
          || includes (to_lower j.id) (to_lower search_term))
        (base_junctions store p)

unfoldable pub marker_color : Status → Bool → String
marker_color congested is_marl = "#EF4444"
marker_color normal is_marl = if is_marl then "#0D9488" else "#10B981"
