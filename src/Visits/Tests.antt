-- ===== src/Visits/Tests.antt =====
-- The visits of pages at concrete inputs.
use surakshanet.Base.{ℕ, ◌≡◌, refl, String, Bool, true, false, Option, none, some, List, [], ◌∷◌}
use surakshanet.Base.Dict
use surakshanet.Realtime.State.{Link, opened, Service, Browser, new}
use surakshanet.Realtime.Service.{
  connect, subscribe, on_message, unsubscribe, release_if_idle, on_open, on_close, start_heartbeat,
  stop_heartbeat, ws_url,
}
use surakshanet.Realtime.Delivery.{subscribers}
use surakshanet.TrafficMap.{TrafficMessage, initial, on_traffic}
use surakshanet.Visits.{mount, leave, map_page, signal_page, emergency_page}
use surakshanet.Visits.Restored.{leave-mount}
use surakshanet.Visits.Reach.{handled, traffic_reaches_map}
use surakshanet.Realtime.Steps.{
  Event, opens, closes, fires, subscribes, unsubscribes, run, step, message_on,
}

abbrev dashboard : Browser
dashboard = record {
  protocol = "http:";
  host = "localhost:5173";
  api_url = none;
  parse_url = λ url. none;
  constructs = λ url. true;
}

-- The signal page is open with the callback 1, and another client of its channel with 9.
abbrev open_pages : Service
open_pages = subscribe dashboard "signals" 9 (mount dashboard (signal_page 1) new)

left_signals : subscribers "signals" (leave (signal_page 1) open_pages) ≡ 9 ∷ []
unfolding subscribe unsubscribe release_if_idle mount leave connect on_message new Dict.get Dict.put
left_signals = refl

emergency_sockets : Dict.has (mount dashboard (emergency_page 1) new).sockets "emergency" ≡ true
unfolding subscribe mount connect on_message new Dict.get Dict.put
emergency_sockets = refl

leave-mount_example :
    subscribers "signals" (leave (map_page 3 4) (mount dashboard (map_page 3 4) open_pages))
    ≡ subscribers "signals" open_pages
unfolding subscribe mount connect on_message new Dict.get Dict.put Dict.remove
leave-mount_example =
    leave-mount dashboard "signals" (map_page 3 4) open_pages ((refl, tt), (tt, tt))
      (refl, (refl, tt))

abbrev in_words : ℕ → String
in_words n = "30"

abbrev never : ℕ → TrafficMessage → Bool
never cb m = false

abbrev message : TrafficMessage
message = record {
  step = some 30;
  total_vehicles = some 900;
  avg_speed = none;
  throughput = none;
  network_los = some "C";
  active_alerts = none;
  junctions = [];
}

abbrev read : String → Option TrafficMessage
read text = some message

-- The socket of "traffic" opens, is lost and is made again, and another page comes and goes.
abbrev joined : List Event
joined =
    opens 2
    ∷ closes 2 7
    ∷ fires 4
    ∷ opens 5
    ∷ subscribes "traffic" 6
    ∷ unsubscribes "traffic" 6
    ∷ []

abbrev later : Service
later = run dashboard (mount dashboard (map_page 3 4) open_pages) joined

abbrev reopened : Link
reopened = record {
  id = 5;
  channel = "traffic";
  url = "ws://localhost:5173/ws/traffic";
  ready = opened;
}

traffic_reaches_map_example :
    handled 3 (on_traffic in_words) (message_on never read 5 "{}" later) initial
    ≡ on_traffic in_words message initial
unfolding subscribe unsubscribe release_if_idle mount connect on_message on_open on_close
    start_heartbeat stop_heartbeat ws_url run step new Dict.get Dict.put Dict.remove
traffic_reaches_map_example =
    traffic_reaches_map in_words never read dashboard 3 4 open_pages joined 5 reopened "{}" message
      initial refl (tt, (tt, (tt, (tt, (tt, (refl, tt)))))) refl refl refl (λ c. refl)
