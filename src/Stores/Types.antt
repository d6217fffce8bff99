-- ===== src/Stores/Types.antt =====
-- frontend/dashboard/src/types/index.ts: the records that the stores hold and the others that it
-- declares. Floating-point fields are of an abstract type `F`; no code of the stores computes with them.
use surakshanet.Base.{ℕ, String, Bool, Option, List}
use surakshanet.Base.Dict.{Dict}

pub data Role : Type 0 where
  admin operator viewer : Role

pub record User : Type 0 where
  pub id : String
  pub email : String
  pub name : String
  pub role : Role
  pub is_active : Bool
  pub created_at : String

pub record Junction (F : Type 0) : Type 0 where
  pub id : String
  pub name : String
  pub latitude : F
  pub longitude : F
  pub num_approaches : ℕ
  pub is_active : Bool
  pub created_at : String

pub record Approach (F : Type 0) : Type 0 where
  pub pcu : F
  pub queue_length : F
  pub avg_speed : F

pub record JunctionState (F : Type 0) : Type 0 where
  pub junction_id : String
  pub timestamp : F
  pub approaches : Dict (Approach F)
  pub current_phase : String
  pub phase_elapsed : F
  pub mode : String

pub data AlertType : Type 0 where
  congestion spillback signal_failure queue_overflow : AlertType

pub data Severity : Type 0 where
  info warning critical : Severity

pub record Alert : Type 0 where
  pub id : String
  pub junction_id : Option String
  pub alert_type : AlertType
  pub severity : Severity
  pub message : String
  pub is_acknowledged : Bool
  pub created_at : String
  pub acknowledged_at : Option String

pub record TrainingStatus (F : Type 0) : Type 0 where
  pub is_training : Bool
  pub episode : ℕ
  pub total_episodes : ℕ
  pub current_reward : F
  pub avg_reward_100 : F
  pub epsilon : F
  pub best_reward : F

pub record GlobalMetrics (F : Type 0) : Type 0 where
  pub total_vehicles : ℕ
  pub avg_speed : F
  pub total_waiting_time : F
  pub throughput : F

pub record SimulationState (F : Type 0) : Type 0 where
  pub simulation_time : F
  pub step_count : ℕ
  pub junctions : Dict (JunctionState F)
  pub global_metrics : GlobalMetrics F

-- `source`, which a reading need not have.
pub data ReadingSource : Type 0 where
  live sim mock : ReadingSource

pub record TrafficReading (F : Type 0) : Type 0 where
  pub id : String
  pub timestamp : String
  pub sensor_id : String
  pub junction_id : String
  pub vehicle_count : ℕ
  pub pcu_value : F
  pub avg_speed : Option F
  pub queue_length : Option F
  pub vehicle_breakdown : Option (Dict F)
  pub source : Option ReadingSource

pub data Priority : Type 0 where
  critical_priority high_priority medium_priority : Priority

pub data VehicleType : Type 0 where
  ambulance fire police vip : VehicleType

pub data EventStatus : Type 0 where
  active completed cancelled : EventStatus

pub record EmergencyEvent : Type 0 where
  pub id : String
  pub priority : Priority
  pub vehicle_type : VehicleType
  pub route : List String
  pub status : EventStatus
  pub activated_by : Option String
  pub started_at : String
  pub ended_at : Option String

pub record Prediction (F : Type 0) : Type 0 where
  pub minutes : ℕ
  pub predicted_pcu : F
  pub confidence : F

pub record Route (F : Type 0) : Type 0 where
  pub path : List (F × F)
  pub distance_km : F
  pub eta_minutes : F
  pub congestion_level : String
