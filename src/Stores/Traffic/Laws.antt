-- ===== src/Stores/Traffic/Laws.antt =====
-- Alerts and junction states of frontend/dashboard/src/store/trafficStore.ts.
use surakshanet.Base.{
  ℕ, ◌+◌, ◌≡◌, refl, String, false, not, ◌&&◌, some, List, [], ◌∷◌, map, arith, str_eq,
  if◌then◌else◌, count,
}
use surakshanet.Base.Dict
use surakshanet.Stores.Types.{JunctionState, Alert}
use surakshanet.Stores.Traffic.{TrafficState, acknowledge, update_junction_state, acknowledge_alert}

-- The alerts that wait for an operator, in all and with a given id.
abbrev pub open_count : List Alert → ℕ
open_count = count (λ a. not a.is_acknowledged)

abbrev pub open_with : String → List Alert → ℕ
open_with id = count (λ a. str_eq a.id id && not a.is_acknowledged)

-- An alert without its flag.
abbrev pub unmarked : Alert → Alert
unmarked a = record a { is_acknowledged = false }

acknowledge-open :
    (id : String) (alerts : List Alert)
    → open_count (map (acknowledge id) alerts) + open_with id alerts ≡ open_count alerts
acknowledge-open id [] = refl
acknowledge-open id (a ∷ alerts) = ground (arith, acknowledge-open id alerts)

acknowledge-none_left :
    (id : String) (alerts : List Alert) → open_with id (map (acknowledge id) alerts) ≡ 0
acknowledge-none_left id [] = refl
acknowledge-none_left id (a ∷ alerts) = ground (arith, acknowledge-none_left id alerts)

unmarked-acknowledge : (id : String) (a : Alert) → unmarked (acknowledge id a) ≡ unmarked a
unmarked-acknowledge id a = ground arith

acknowledge-unmarked :
    (id : String) (alerts : List Alert)
    → map unmarked (map (acknowledge id) alerts) ≡ map unmarked alerts
acknowledge-unmarked id [] = refl
acknowledge-unmarked id (a ∷ alerts) =
    cc (unmarked-acknowledge id a, acknowledge-unmarked id alerts)

module _ {F : Type 0} where
  -- Acknowledging an id leaves no alert of that id open and takes exactly those off the count of open
  -- alerts; the alerts stay in their order, and nothing but their flags changes.
  acknowledge_alert_lem :
      (id : String) (s : TrafficState F)
      → (open_with id (acknowledge_alert id s).alerts ≡ 0)
        × (open_count (acknowledge_alert id s).alerts + open_with id s.alerts ≡ open_count s.alerts)
        × (map unmarked (acknowledge_alert id s).alerts ≡ map unmarked s.alerts)
  unfolding acknowledge_alert
  acknowledge_alert_lem id s = (
    acknowledge-none_left id s.alerts,
    acknowledge-open id s.alerts,
    acknowledge-unmarked id s.alerts,
  )

  -- A junction's last update is what is read back, whatever is updated elsewhere, and the alerts stay.
  update_junction_state_lem :
      (state : JunctionState F) (id : String) (s : TrafficState F)
      → (Dict.get (update_junction_state state s).junction_states id
          ≡ (if str_eq state.junction_id id then some state else Dict.get s.junction_states id))
        × ((update_junction_state state s).alerts ≡ s.alerts)
  unfolding update_junction_state
  update_junction_state_lem state id s =
      (Dict.get-put s.junction_states state.junction_id state id, refl)
