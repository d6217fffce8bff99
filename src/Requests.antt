-- ===== src/Requests.antt =====
-- The requests of frontend/dashboard/src/services/api.ts: a method, a path below the base url and a
-- body. `D` is the type of the data that a body takes over as they are, `F` that of coordinates;
-- `to_text` is the text of a number. The headers are those of Stores/Session.
mod Tests
use surakshanet.Base.{
  ℕ, String, Bool, true, false, Option, none, some, List, [], ◌∷◌, or_else, if◌then◌else◌, str_eq,
  ◌<>◌,
}

pub data Method : Type 0 where
  get post patch : Method

pub data Value (D F : Type 0) : Type 0 where
  text : String → Value D F
  number : ℕ → Value D F
  coordinate : F → Value D F

pub data Body (D F : Type 0) : Type 0 where
  empty : Body D F
  fields : List (String × Value D F) → Body D F
  data_of : D → Body D F
  -- `multipart/form-data`
  form : D → Body D F

pub record Request (D F : Type 0) : Type 0 where
  pub method : Method
  pub path : String
  pub body : Body D F

abbrev request : {D F : Type 0} → Method → String → Body D F → Request D F
request method path body = record { method = method; path = path; body = body }

-- A call of the api. A parameter with a default value is an option.
pub data Call (D F : Type 0) : Type 0 where
  login : String → String → Call D F
  register : D → Call D F
  get_me refresh_token : Call D F
  junctions : Call D F
  junction : String → Call D F
  create_junction : D → Call D F
  update_junction : String → D → Call D F
  readings : String → Option ℕ → Call D F
  all_readings : Option ℕ → Call D F
  create_reading : D → Call D F
  plans : Call D F
  plan_of : String → Call D F
  set_mode : String → String → Call D F
  override : String → String → Option ℕ → Call D F
  simulation_start : Option String → Call D F
  simulation_step : Option ℕ → Call D F
  simulation_stop simulation_state simulation_metrics simulation_reset : Call D F
  detect : D → Call D F
  predict : String → Call D F
  train_start : Option ℕ → Option String → Call D F
  train_stop train_status model_health : Call D F
  alerts : Call D F
  acknowledge : String → Call D F
  alert_stats : Call D F
  activate : D → Call D F
  deactivate : String → Call D F
  emergency_status : Option String → Call D F
  emergency_history : Option ℕ → Call D F
  get_route get_alternatives : F → F → F → F → Call D F
  get_congestion : Call D F
  broadcast_vms : D → Call D F
  active_vms vms_history : Call D F
  users : Call D F
  update_role : String → String → Call D F
  update_status : String → Bool → Call D F

abbrev coordinates : {D F : Type 0} → F → F → F → F → Body D F
coordinates a b c d = fields (
    ("origin_lat", coordinate a)
    ∷ ("origin_lon", coordinate b)
    ∷ ("dest_lat", coordinate c)
    ∷ ("dest_lon", coordinate d)
    ∷ [])

abbrev status_path : Option String → String
status_path none = "/emergency/status"
status_path (some id) = if str_eq id "" then "/emergency/status" else "/emergency/status/" <> id

module _ {D F : Type 0} (to_text : ℕ → String) where
  -- The request that each call of `api` sends.
  unfoldable pub request_of : Call D F → Request D F
  request_of (login email password) =
      request post "/auth/login" (fields (("email", text email) ∷ ("password", text password) ∷ []))
  request_of (register d) = request post "/auth/register" (data_of d)
  request_of get_me = request get "/auth/me" empty
  request_of refresh_token = request post "/auth/refresh" empty
  request_of junctions = request get "/traffic/junctions" empty
  request_of (junction id) = request get ("/traffic/junctions/" <> id) empty
  request_of (create_junction d) = request post "/traffic/junctions" (data_of d)
  request_of (update_junction id d) = request patch ("/traffic/junctions/" <> id) (data_of d)
  request_of (readings id limit) =
      request get ("/traffic/readings/" <> (id <> ("?limit=" <> to_text (or_else limit 20)))) empty
  request_of (all_readings limit) =
      request get ("/traffic/readings?limit=" <> to_text (or_else limit 100)) empty
  request_of (create_reading d) = request post "/traffic/readings" (data_of d)
  request_of plans = request get "/signals/plans" empty
  request_of (plan_of id) = request get ("/signals/junctions/" <> id) empty
  request_of (set_mode id mode) =
      request patch ("/signals/junctions/" <> (id <> "/mode")) (fields (("mode", text mode) ∷ []))
  request_of (override id action value) =
      request post ("/signals/junctions/" <> (id <> "/override"))
        (fields (("action", text action) ∷ ("value", number (or_else value 5)) ∷ []))
  request_of (simulation_start scenario) =
      request post "/simulation/start"
        (fields (("scenario_profile", text (or_else scenario "morning_peak")) ∷ []))
  request_of (simulation_step steps) =
      request post "/simulation/step" (fields (("steps", number (or_else steps 1)) ∷ []))
  request_of simulation_stop = request post "/simulation/stop" empty
  request_of simulation_state = request get "/simulation/state" empty
  request_of simulation_metrics = request get "/simulation/metrics" empty
  request_of simulation_reset = request post "/simulation/reset" empty
  request_of (detect d) = request post "/ml/detect" (form d)
  request_of (predict id) = request get ("/ml/predict/" <> id) empty
  request_of (train_start episodes scenario) = request post "/ml/train/start" (
      fields (
        ("num_episodes", number (or_else episodes 500))
        ∷ ("scenario", text (or_else scenario "morning_peak"))
        ∷ []))
  request_of train_stop = request post "/ml/train/stop" empty
  request_of train_status = request get "/ml/train/status" empty
  request_of model_health = request get "/ml/models/health" empty
  request_of alerts = request get "/alerts" empty
  request_of (acknowledge id) = request patch ("/alerts/" <> (id <> "/acknowledge")) empty
  request_of alert_stats = request get "/alerts/stats" empty
  request_of (activate d) = request post "/emergency/activate" (data_of d)
  request_of (deactivate id) = request post ("/emergency/deactivate/" <> id) empty
  request_of (emergency_status id) = request get (status_path id) empty
  request_of (emergency_history limit) =
      request get ("/emergency/history?limit=" <> to_text (or_else limit 20)) empty
  request_of (get_route a b c d) = request post "/routing/route" (coordinates a b c d)
  request_of (get_alternatives a b c d) = request post "/routing/alternatives" (coordinates a b c d)
  request_of get_congestion = request get "/routing/congestion" empty
  request_of (broadcast_vms d) = request post "/routing/vms/broadcast" (data_of d)
  request_of active_vms = request get "/routing/vms/active" empty
  request_of vms_history = request get "/routing/vms/history" empty
  request_of users = request get "/users" empty
  request_of (update_role id role) =
      request patch ("/users/" <> (id <> ("/role?role=" <> role))) empty
  request_of (update_status id is_active) =
      request patch
        ("/users/" <> (id <> ("/status?is_active=" <> (if is_active then "true" else "false"))))
        empty
