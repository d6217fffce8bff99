-- ===== src/Stores/Session/Refusals.antt =====
-- Which of the api's requests sign the session out when they are refused: the response interceptor of
-- frontend/dashboard/src/services/api.ts on the requests of the same file.
use surakshanet.Base.{ℕ, String, Bool, true, false, Option}
use surakshanet.Base.Dict
use surakshanet.Requests.{
  Call, login, register, get_me, refresh_token, junctions, create_junction, create_reading, plans,
  simulation_start, simulation_step, simulation_stop, simulation_state, simulation_metrics,
  simulation_reset, detect, train_start, train_stop, train_status, model_health, alerts,
  alert_stats, activate, get_route, get_alternatives, get_congestion, broadcast_vms, active_vms,
  vms_history, users,
}
use surakshanet.Stores.Session.{Session}

module _ {D F : Type 0} where
  -- The calls whose path is a constant.
  pub data Fixed : Call D F → Type 0 where
    login_call : {email password : String} → Fixed (login email password)
    register_call : {d : D} → Fixed (register d)
    get_me_call : Fixed get_me
    refresh_token_call : Fixed refresh_token
    junctions_call : Fixed junctions
    create_junction_call : {d : D} → Fixed (create_junction d)
    create_reading_call : {d : D} → Fixed (create_reading d)
    plans_call : Fixed plans
    simulation_start_call : {scenario : Option String} → Fixed (simulation_start scenario)
    simulation_step_call : {steps : Option ℕ} → Fixed (simulation_step steps)
    simulation_stop_call : Fixed simulation_stop
    simulation_state_call : Fixed simulation_state
    simulation_metrics_call : Fixed simulation_metrics
    simulation_reset_call : Fixed simulation_reset
    detect_call : {d : D} → Fixed (detect d)
    train_start_call :
        {episodes : Option ℕ} {scenario : Option String} → Fixed (train_start episodes scenario)
    train_stop_call : Fixed train_stop
    train_status_call : Fixed train_status
    model_health_call : Fixed model_health
    alerts_call : Fixed alerts
    alert_stats_call : Fixed alert_stats
    activate_call : {d : D} → Fixed (activate d)
    get_route_call : {a b c d : F} → Fixed (get_route a b c d)
    get_alternatives_call : {a b c d : F} → Fixed (get_alternatives a b c d)
    get_congestion_call : Fixed get_congestion
    broadcast_vms_call : {d : D} → Fixed (broadcast_vms d)
    active_vms_call : Fixed active_vms
    vms_history_call : Fixed vms_history
    users_call : Fixed users

  abbrev pub is_login : Call D F → Bool
  is_login (login email password) = true
  is_login _ = false
