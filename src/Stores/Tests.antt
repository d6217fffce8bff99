-- ===== src/Stores/Tests.antt =====
-- Sessions at concrete inputs.
use surakshanet.Base.{String, Option, ℕ, ◌≡◌, refl, true, false, none, some, List, [], ◌∷◌}
use surakshanet.Base.Dict
use surakshanet.Base.Dict.{Dict}
use surakshanet.Stores.Types.{User, admin, Alert, JunctionState, spillback, critical}
use surakshanet.Stores.Traffic.{TrafficState, initial_traffic, add_alert, acknowledge_alert}
use surakshanet.Stores.Traffic.Laws.{open_count}
use surakshanet.Stores.Session.{
  Storage, get_item, set_item, remove_item, store_token, signed_out, Session, LoginData,
  login_succeeds, login_fails, logout, load_from_storage, me_succeeds, me_fails, on_request,
  on_error, is_login_url,
}
use surakshanet.Stores.Session.Steps.{
  Event, logs_in, logs_out, loads, me_answers, refused, reloads, step, run,
}
use surakshanet.Stores.Session.Laws.{Inv, fresh, run_session-Inv, late_answer}

session : Unit {0}
unfolding get_item set_item remove_item store_token login_succeeds login_fails logout
    load_from_storage me_succeeds me_fails on_request on_error is_login_url step run Dict.get
    Dict.put Dict.remove
session = tt

abbrev alarm : Alert
alarm = record {
  id = "a1";
  junction_id = none;
  alert_type = spillback;
  severity = critical;
  message = "Queue at capacity";
  is_acknowledged = false;
  created_at = "2026-01-01";
  acknowledged_at = none;
}

abbrev alarmed : TrafficState ℕ
alarmed = add_alert (record alarm { id = "a2" }) (add_alert alarm initial_traffic)

abbrev at_j1 : JunctionState ℕ
at_j1 = record {
  junction_id = "J1";
  timestamp = 5;
  approaches = Dict.empty;
  current_phase = "NS";
  phase_elapsed = 3;
  mode = "MARL";
}

two_alarms : open_count (acknowledge_alert "a1" alarmed).alerts ≡ 1
unfolding acknowledge_alert add_alert initial_traffic
two_alarms = refl

abbrev blank : Storage
blank = record { usable = true; items = Dict.empty }

abbrev ann : User
ann = record {
  id = "u1";
  email = "operator@surakshanet.org";
  name = "Ann";
  role = admin;
  is_active = true;
  created_at = "2026-01-01";
}

abbrev answer : LoginData
answer = record { token = none; access_token = some "abc"; user = some ann }

abbrev shift : List Event
shift =
    logs_in answer
    ∷ refused (some 500) (some "/alerts")
    ∷ reloads
    ∷ loads
    ∷ me_answers (some ann)
    ∷ []

shift_ends :
    (run (fresh blank) shift).auth
    ≡ record { user = some ann; token = some "abc"; is_authenticated = true }
unfolding session
shift_ends = refl

expired :
    (run (fresh blank) (logs_in answer ∷ refused (some 401) (some "/alerts") ∷ [])).auth
    ≡ signed_out
unfolding session
expired = refl

run_session-Inv_example : Inv (run (fresh blank) shift)
run_session-Inv_example = run_session-Inv blank shift (refl, (tt, (tt, (tt, (tt, tt)))))

abbrev working : Session
working = run (fresh blank) shift

abbrev shown : ℕ → String
shown n = "5"

late_answer_example :
    let t = step (step (step working loads) logs_out) (me_answers (some ann)) in
    (t.auth.user ≡ some ann) × (t.auth.token ≡ none) × (t.auth.is_authenticated ≡ false)
unfolding session
late_answer_example = late_answer working ann refl
