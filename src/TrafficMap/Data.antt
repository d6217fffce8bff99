-- ===== src/TrafficMap/Data.antt =====
-- The data of frontend/dashboard/src/pages/TrafficMapPage.tsx. Speeds are tenths of km/h.
use surakshanet.Base.{ℕ, String, Bool, true, false, Option, List, [], ◌∷◌}

pub data Status : Type 0 where
  normal congested : Status

-- A pin of the map, in a plane of coordinates `F`.
pub record Pin (F : Type 0) : Type 0 where
  pub id : String
  pub name : String
  pub lat : F
  pub lng : F
  pub status : Status
  pub is_marl : Bool
  pub pcu : ℕ
  pub speed : ℕ
  pub queue : ℕ

pub data Icon : Type 0 where
  zap activity alert_triangle check_circle : Icon

pub record FeedEvent : Type 0 where
  pub id : String
  pub title : String
  pub time : String
  pub desc : String
  pub icon : Icon
  pub color : String
  pub bg : String

abbrev pub feed_event : String → String → String → String → Icon → String → String → FeedEvent
feed_event id title time desc icon color bg = record {
  id = id;
  title = title;
  time = time;
  desc = desc;
  icon = icon;
  color = color;
  bg = bg;
}

abbrev pub first_events : List FeedEvent
first_events =
    feed_event "1" "MARL Phase Optimization" "Just now"
      "Corridor cycle adjusted: +4.5s Green to Northbound" zap "text-teal-600" "bg-teal-50"
    ∷ feed_event "2" "SUMO Twin Ingestion" "2s ago" "Ingested 1,248 active TraCI vehicle vectors"
        activity "text-sky-600" "bg-sky-50"
    ∷ feed_event "3" "Congestion Threshold Alert" "1m ago" "Ashram Chowk queue reached 85m capacity"
        alert_triangle "text-amber-600" "bg-amber-50"
    ∷ feed_event "4" "Telemetry Sync Nominal" "3m ago" "All 12 Delhi edge nodes streaming at 10Hz"
        check_circle "text-emerald-600" "bg-emerald-50"
    ∷ []

-- The state of the page; coordinates in ten-thousandths of a degree where it starts.
pub record Page (F : Type 0) : Type 0 where
  pub is_playing : Bool
  pub total_vehicles : ℕ
  pub avg_speed : ℕ
  pub throughput : ℕ
  pub network_los : String
  pub active_alerts : ℕ
  pub is_twin_connected : Bool
  pub last_step_received : Option ℕ
  pub junctions_data : List (Pin F)
  pub feed_events : List FeedEvent

abbrev pin : String → String → ℕ → ℕ → Status → Bool → ℕ → ℕ → ℕ → Pin ℕ
pin id name lat lng status is_marl pcu speed queue = record {
  id = id;
  name = name;
  lat = lat;
  lng = lng;
  status = status;
  is_marl = is_marl;
  pcu = pcu;
  speed = speed;
  queue = queue;
}

abbrev pub default_junctions : List (Pin ℕ)
default_junctions =
    pin "DEL-CP-01" "Connaught Place Outer Circle" 286315 772167 normal true 342 315 14
    ∷ pin "DEL-ITO-02" "ITO Crossing - Vikas Marg" 286295 772415 congested false 512 162 68
    ∷ pin "DEL-AIIMS-03" "AIIMS Flyover - Ring Road" 285672 772100 normal true 289 368 11
    ∷ pin "DEL-DHK-05" "Dhaula Kuan Interchange" 285918 771615 normal true 198 441 6
    ∷ pin "DEL-ASH-04" "Ashram Chowk - Mathura Road" 285714 772588 congested true 645 114 95
    ∷ pin "DEL-ISBT-07" "Kashmere Gate ISBT" 286665 772285 normal true 267 332 18
    ∷ []

-- A junction of a message on the channel "traffic".
pub record SumoJunction : Type 0 where
  pub queue : ℕ
  pub speed : ℕ
  pub pcu : ℕ
  pub is_congested : Bool

pub record TrafficMessage : Type 0 where
  pub step : Option ℕ
  pub total_vehicles : Option ℕ
  pub avg_speed : Option ℕ
  pub throughput : Option ℕ
  pub network_los : Option String
  pub active_alerts : Option ℕ
  pub junctions : List SumoJunction
