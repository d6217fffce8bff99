-- ===== src/Realtime/Teardown.antt =====
-- `connect` and `disconnect` of frontend/dashboard/src/services/websocket.ts.
use surakshanet.Base.{◌||◌, ℕ, ◌≡◌, ◌∙◌, String, false, Option, none, List, arith, str_eq, or_else}
use surakshanet.Base.Dict
use surakshanet.Base.Dict.{Dict}
use surakshanet.Realtime.State.{Service, Browser}
use surakshanet.Realtime.Service.{
  stop_heartbeat, ws_url, connect, disconnect, close_socket, cancel_retry,
}
use surakshanet.Realtime.Beats.{Tracked, beats_of}
use surakshanet.Realtime.Heartbeat.{stop_heartbeat-beats_of}

-- After `connect` the channel has a socket exactly when it had one before or the constructor did not
-- throw, and a second call does nothing.
pub connect_once :
    (b : Browser) (channel : String) (s : Service)
    → (Dict.has (connect b channel s).sockets channel
        ≡ (Dict.has s.sockets channel || b.constructs (ws_url b channel)))
      × (connect b channel (connect b channel s) ≡ connect b channel s)
unfolding connect
connect_once b channel s = (
  ground (arith, Dict.get-put_self s.sockets channel s.next_id),
  ground (arith, Dict.get-put_self s.sockets channel s.next_id),
)

-- The fields of the service, seen at one channel.
abbrev pub View : Type 0
View = Option ℕ × Option ℕ × Option ℕ × Option ℕ × Option (List ℕ)

abbrev pub view : String → Service → View
view channel s = (
  Dict.get s.sockets channel,
  Dict.get s.reconnect_timeouts channel,
  Dict.get s.reconnect_attempts channel,
  Dict.get s.ping_intervals channel,
  Dict.get s.callbacks channel,
)

stop_heartbeat-view :
    (channel other : String) (s : Service)
    → str_eq channel other ≡ false
    → view other (stop_heartbeat channel s) ≡ view other s
unfolding stop_heartbeat
stop_heartbeat-view channel other s ne =
    ground (arith, Dict.get-remove s.ping_intervals channel other)

close_socket-view :
    (channel other : String) (s : Service)
    → str_eq channel other ≡ false
    → view other (close_socket channel s) ≡ view other s
unfolding close_socket
close_socket-view channel other s ne = ground (arith, Dict.get-remove s.sockets channel other)

cancel_retry-view :
    (channel other : String) (s : Service)
    → str_eq channel other ≡ false
    → view other (cancel_retry channel s) ≡ view other s
unfolding cancel_retry
cancel_retry-view channel other s ne =
    ground (arith, Dict.get-remove s.reconnect_timeouts channel other)

-- Disconnecting a channel changes nothing that the service holds for another one.
pub disconnect_isolated :
    (channel other : String) (s : Service)
    → str_eq channel other ≡ false
    → view other (disconnect channel s) ≡ view other s
unfolding disconnect
disconnect_isolated channel other s ne =
    let u = close_socket channel s in
    let t = cancel_retry channel u in
    let w : Service = record t { reconnect_attempts = Dict.remove t.reconnect_attempts channel } in
    stop_heartbeat-view channel other w ne
    ∙ ground (arith, Dict.get-remove t.reconnect_attempts channel other)
    ∙ cancel_retry-view channel other u ne
    ∙ close_socket-view channel other s ne

pub stop_heartbeat-maps :
    (channel : String) (s : Service)
    → ((stop_heartbeat channel s).sockets ≡ s.sockets)
      × ((stop_heartbeat channel s).reconnect_timeouts ≡ s.reconnect_timeouts)
      × ((stop_heartbeat channel s).reconnect_attempts ≡ s.reconnect_attempts)
      × ((stop_heartbeat channel s).retries ≡ s.retries)
      × ((stop_heartbeat channel s).links ≡ s.links)
      × ((stop_heartbeat channel s).next_id ≡ s.next_id)
unfolding stop_heartbeat
stop_heartbeat-maps channel s = ground arith

pub cancel_retry-maps :
    (channel : String) (s : Service)
    → ((cancel_retry channel s).sockets ≡ s.sockets)
      × (or_else (Dict.get (cancel_retry channel s).reconnect_timeouts channel) 0 ≡ 0)
      × ((cancel_retry channel s).links ≡ s.links)
      × ((cancel_retry channel s).next_id ≡ s.next_id)
      × ((cancel_retry channel s).beats ≡ s.beats)
      × ((cancel_retry channel s).ping_intervals ≡ s.ping_intervals)
unfolding cancel_retry
cancel_retry-maps channel s = ground (arith, Dict.get-remove_self s.reconnect_timeouts channel)

pub close_socket-maps :
    (channel : String) (s : Service)
    → (Dict.get (close_socket channel s).sockets channel ≡ none)
      × ((close_socket channel s).next_id ≡ s.next_id)
      × ((close_socket channel s).beats ≡ s.beats)
      × ((close_socket channel s).ping_intervals ≡ s.ping_intervals)
unfolding close_socket
close_socket-maps channel s = ground (arith, Dict.get-remove_self s.sockets channel)

-- After `disconnect` the service holds no socket, no timeout to clear and no count for the channel,
-- and, where every heartbeat was one that it could clear, none of them is active on it.
pub disconnect_clears :
    (channel : String) (s : Service)
    → Tracked s
    → (Dict.get (disconnect channel s).sockets channel ≡ none)
      × (or_else (Dict.get (disconnect channel s).reconnect_timeouts channel) 0 ≡ 0)
      × (Dict.get (disconnect channel s).reconnect_attempts channel ≡ none)
      × (beats_of channel (disconnect channel s).beats ≡ 0)
unfolding disconnect
disconnect_clears channel s h =
    let u = close_socket channel s in
    let t = cancel_retry channel u in
    let w : Service = record t { reconnect_attempts = Dict.remove t.reconnect_attempts channel } in
    let closed = close_socket-maps channel s in
    let cancelled = cancel_retry-maps channel u in
    let stopped = stop_heartbeat-maps channel w in
    let pings : t.ping_intervals ≡ s.ping_intervals = cancelled.5 ∙ closed.3 in
    let beats : t.beats ≡ s.beats = cancelled.4 ∙ closed.2 in
    let next : t.next_id ≡ s.next_id = cancelled.3 ∙ closed.1 in
    (
      rw (stopped.0, cancelled.0) closed.0,
      rw stopped.1 cancelled.1,
      rw stopped.2 (Dict.get-remove_self t.reconnect_attempts channel),
      stop_heartbeat-beats_of channel w (rw (pings, beats, next) h),
    )
