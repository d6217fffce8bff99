-- ===== src/Realtime/Tests.antt =====
-- Runs of the WebSocket service, and its theorems at concrete inputs.
use surakshanet.Base.{
  ℕ, ◌+◌, ◌-◌, ◌≤◌, ◌≡◌, refl, String, Bool, true, Option, none, some, List, [], ◌∷◌, ◌++◌, map,
  arith, ◌==◌, min, length, or_else,
}
use surakshanet.Base.Dict
use surakshanet.Realtime.Backoff.{delay, exp_delay}
use surakshanet.Realtime.State.{opened, Link, Service, Browser, new}
use surakshanet.Realtime.Service.{
  stop_heartbeat, start_heartbeat, connect, on_open, on_close, disconnect, close_socket, ws_url,
  cancel_retry, subscribe, unsubscribe, send, ping, deliver, receive, release_if_idle,
}
use surakshanet.Realtime.Steps.{
  Event, disconnects, subscribes, sends, opens, closes, fires, ticks, step, run,
}
use surakshanet.Realtime.Beats.{Tracked, beats_of}
use surakshanet.Realtime.Heartbeat.{run_heartbeats}
use surakshanet.Realtime.Attempts.{attempts_of, flap, flap_bounded}
use surakshanet.Realtime.Teardown.{view, disconnect_isolated, disconnect_clears}
use surakshanet.Realtime.Resurrection.{disconnect_reconnects}
use surakshanet.Realtime.Delivery.{receive_until}

service : Unit {0}
unfolding new step run stop_heartbeat start_heartbeat connect on_open on_close disconnect
    close_socket ws_url cancel_retry subscribe unsubscribe send ping deliver receive release_if_idle
    delay exp_delay Dict.get Dict.put Dict.remove
service = tt

abbrev local_browser : Browser
local_browser = record {
  protocol = "https:";
  host = "ops.example";
  api_url = none;
  parse_url = λ url. none;
  constructs = λ url. true;
}

-- Socket 1 opens with heartbeat 2, is lost, and retry 3 makes socket 4.
abbrev morning : List Event
morning =
    subscribes "alerts" 7
    ∷ opens 1
    ∷ ticks 2
    ∷ sends "alerts" "hello"
    ∷ closes 1 0
    ∷ fires 3
    ∷ opens 4
    ∷ []

morning_ends :
    let s = run local_browser new morning in
    (Dict.get s.sockets "alerts" ≡ some 4)
    × (Dict.get s.reconnect_attempts "alerts" ≡ some 0)
    × (s.sent ≡ (1, "hello") ∷ (1, "{\"type\":\"ping\"}") ∷ [])
    × (beats_of "alerts" s.beats ≡ 1)
unfolding service
morning_ends = (refl, refl, refl, refl)

url_test : ws_url local_browser "alerts" ≡ "wss://ops.example/ws/alerts"
unfolding service
url_test = refl

-- The first delays of the test of the store, with no jitter.
delay_tests : (delay 0 0 ≡ 1000) × (delay 1 0 ≡ 1500) × (delay 2 0 ≡ 2250) × (delay 20 0 ≡ 30000)
unfolding service
delay_tests = (refl, refl, refl, refl)

run_heartbeats_example :
    Tracked (run local_browser new morning)
    × (beats_of "alerts" (run local_browser new morning).beats ≤ 1)
run_heartbeats_example = run_heartbeats local_browser morning "alerts"

flap_bounded_example :
    (attempts_of "alerts" (flap local_browser "alerts" (0 ∷ 5 ∷ []) new)
      ≡ min 20 (attempts_of "alerts" new + 2))
    × (length (flap local_browser "alerts" (0 ∷ 5 ∷ []) new).retries
        ≡ length new.retries + min 20 (attempts_of "alerts" new + 2) - attempts_of "alerts" new)
flap_bounded_example =
    flap_bounded local_browser "alerts" (0 ∷ 5 ∷ []) new (unfold new Dict.get in omega arith)

abbrev awake : Service
awake = run local_browser new morning

disconnect_isolated_example : view "traffic" (disconnect "alerts" awake) ≡ view "traffic" awake
disconnect_isolated_example = disconnect_isolated "alerts" "traffic" awake refl

disconnect_clears_example :
    (Dict.get (disconnect "alerts" awake).sockets "alerts" ≡ none)
    × (or_else (Dict.get (disconnect "alerts" awake).reconnect_timeouts "alerts") 0 ≡ 0)
    × (Dict.get (disconnect "alerts" awake).reconnect_attempts "alerts" ≡ none)
    × (beats_of "alerts" (disconnect "alerts" awake).beats ≡ 0)
disconnect_clears_example =
    disconnect_clears "alerts" awake (run_heartbeats local_browser morning "alerts").0

abbrev alerts_link : Link
alerts_link = record {
  id = 4;
  channel = "alerts";
  url = "wss://ops.example/ws/alerts";
  ready = opened;
}

disconnect_reconnects_example :
    let gone = step local_browser (step local_browser awake (disconnects "alerts")) (closes 4 0) in
    Dict.has (step local_browser gone (fires (disconnect "alerts" awake).next_id)).sockets "alerts"
    ≡ true
unfolding service
disconnect_reconnects_example =
    disconnect_reconnects local_browser awake "alerts" 4 0 alerts_link refl refl refl refl

abbrev fussy : ℕ → String → Bool
fussy cb x = cb == 9

abbrev read : String → Option String
read text = some text

abbrev crowded : Service
crowded =
    run local_browser new
      (subscribes "alerts" 7 ∷ subscribes "alerts" 9 ∷ subscribes "alerts" 3 ∷ [])

receive_until_example :
    receive fussy read "alerts" "x" crowded ≡ map (λ cb. (cb, "x")) ((7 ∷ []) ++ 9 ∷ [])
unfolding service
receive_until_example =
    receive_until fussy read "alerts" "x" crowded "x" (7 ∷ []) (3 ∷ []) 9 refl refl (refl, tt) refl
