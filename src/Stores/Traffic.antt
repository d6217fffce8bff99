-- ===== src/Stores/Traffic.antt =====
-- frontend/dashboard/src/store/trafficStore.ts.
pub mod Laws
use surakshanet.Base.{
  String, Bool, true, false, Option, none, some, List, [], ◌∷◌, map, str_eq, if◌then◌else◌,
}
use surakshanet.Base.Dict
use surakshanet.Base.Dict.{Dict}
use surakshanet.Stores.Types.{Junction, JunctionState, Alert, SimulationState, TrainingStatus}

pub record TrafficState (F : Type 0) : Type 0 where
  pub junctions : List (Junction F)
  pub junction_states : Dict (JunctionState F)
  pub alerts : List Alert
  pub simulation_state : Option (SimulationState F)
  pub is_simulation_running : Bool
  pub training_status : Option (TrainingStatus F)

-- What `api.junctions.getAll()` brings.
pub data Fetched (F : Type 0) : Type 0 where
  fetched : List (Junction F) → Fetched F
  unavailable : Fetched F

abbrev pub acknowledge : String → Alert → Alert
acknowledge id a = if str_eq a.id id then record a { is_acknowledged = true } else a

module _ {F : Type 0} where
  unfoldable pub initial_traffic : TrafficState F
  initial_traffic = record {
    junctions = [];
    junction_states = Dict.empty;
    alerts = [];
    simulation_state = none;
    is_simulation_running = false;
    training_status = none;
  }

  unfoldable pub set_junctions : List (Junction F) → TrafficState F → TrafficState F
  set_junctions junctions s = record s { junctions = junctions }

  unfoldable pub update_junction_state : JunctionState F → TrafficState F → TrafficState F
  update_junction_state state s = record s {
    junction_states = Dict.put s.junction_states state.junction_id state;
  }

  unfoldable pub add_alert : Alert → TrafficState F → TrafficState F
  add_alert alert s = record s { alerts = alert ∷ s.alerts }

  unfoldable pub acknowledge_alert : String → TrafficState F → TrafficState F
  acknowledge_alert id s = record s { alerts = map (acknowledge id) s.alerts }

  unfoldable pub set_simulation_state : SimulationState F → TrafficState F → TrafficState F
  set_simulation_state state s = record s {
    simulation_state = some state;
    is_simulation_running = true;
  }

  unfoldable pub set_training_status : Option (TrainingStatus F) → TrafficState F → TrafficState F
  set_training_status status s = record s { training_status = status }

  unfoldable pub fetch_junctions : Fetched F → TrafficState F → TrafficState F
  fetch_junctions (fetched junctions) s = record s { junctions = junctions }
  fetch_junctions unavailable s = s
