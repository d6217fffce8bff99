-- ===== src/Realtime/Resurrection.antt =====
-- What happens after `disconnect` (frontend/dashboard/src/services/websocket.ts): `ws.close()` makes
-- the browser call `onclose` later, and `onclose` schedules a reconnection.
use surakshanet.Base.{
  ℕ, ◌≡◌, refl, String, true, not, some, List, [], ◌∷◌, arith, ◌==◌, or_else, find?, filter,
}
use surakshanet.Base.Dict
use surakshanet.Realtime.Backoff.{delay}
use surakshanet.Realtime.State.{ReadyState, closed, Link, Retry, Service, Browser}
use surakshanet.Realtime.Service.{
  ws_url, on_close, disconnect, close_socket, cancel_retry, set_ready, close_link, closing_of,
}
use surakshanet.Realtime.Steps.{disconnects, closes, fires, closable, is_closed, step}
use surakshanet.Realtime.Attempts.{disconnect-attempts}
use surakshanet.Realtime.Teardown.{connect_once, stop_heartbeat-maps, cancel_retry-maps}

is_closed-closing_of : (r : ReadyState) → is_closed (closing_of r) ≡ is_closed r
is_closed-closing_of closed = refl
is_closed-closing_of _ = refl

closable-close_link :
    (id : ℕ) (links : List Link) (l : Link)
    → closable id links ≡ some l
    → closable id (close_link id links) ≡ some (record l { ready = closing_of l.ready })
closable-close_link id [] l e = cc
closable-close_link id (k ∷ links) l e =
    ground (arith, closable-close_link id links l, is_closed-closing_of k.ready)

close_socket-links :
    (channel : String) (s : Service) {id : ℕ}
    → Dict.get s.sockets channel ≡ some id
    → (close_socket channel s).links ≡ close_link id s.links
unfolding close_socket
close_socket-links channel s e = ground arith

disconnect-links :
    (channel : String) (s : Service) {id : ℕ}
    → Dict.get s.sockets channel ≡ some id
    → (disconnect channel s).links ≡ close_link id s.links
unfolding disconnect
disconnect-links channel s e =
    let u = close_socket channel s in
    let t = cancel_retry channel u in
    ground (
      arith,
      stop_heartbeat-maps channel
          (record t { reconnect_attempts = Dict.remove t.reconnect_attempts channel }),
      cancel_retry-maps channel u,
      close_socket-links channel s e,
    )

-- With no attempt counted, a closed socket schedules a reconnection at the next free number.
on_close-retries :
    (channel : String) (random : ℕ) (s : Service)
    → or_else (Dict.get s.reconnect_attempts channel) 0 ≡ 0
    → (on_close channel random s).retries
      ≡ record { id = s.next_id; channel = channel; delay_ms = delay 0 random } ∷ s.retries
unfolding on_close
on_close-retries channel random s e =
    ground
      (arith, stop_heartbeat-maps channel (record s { sockets = Dict.remove s.sockets channel }))

fires-head :
    (b : Browser) (s : Service) (r : Retry) (rest : List Retry)
    → s.retries ≡ r ∷ rest
    → b.constructs (ws_url b r.channel) ≡ true
    → Dict.has (step b s (fires r.id)).sockets r.channel ≡ true
unfolding step
fires-head b s r rest e h =
    let found : find? (λ q. q.id == r.id) s.retries ≡ some r = rw e (ground arith) in
    let rest : Service = record s { retries = filter (λ q. not (q.id == r.id)) s.retries } in
    rw (found, step) (ground (arith, connect_once b r.channel rest))

-- A channel with a socket is disconnected, the browser then reports that the socket has closed, and
-- the timeout that this schedules fires: the channel has a socket again, where the constructor does
-- not throw. So `disconnect` does not keep a channel disconnected.
pub disconnect_reconnects :
    (b : Browser) (s : Service) (channel : String) (id random : ℕ) (l : Link)
    → Dict.get s.sockets channel ≡ some id
    → closable id s.links ≡ some l
    → l.channel ≡ channel
    → b.constructs (ws_url b channel) ≡ true
    → let gone = step b (step b s (disconnects channel)) (closes id random) in
      Dict.has (step b gone (fires (disconnect channel s).next_id)).sockets channel ≡ true
unfolding step
disconnect_reconnects b s channel id random l e c same h =
    let t = disconnect channel s in
    let u : Service = record t { links = set_ready id closed t.links } in
    let still : closable id t.links ≡ some (record l { ready = closing_of l.ready }) =
      rw (disconnect-links channel s e) (closable-close_link id s.links l c) in
    let quiet : or_else (Dict.get u.reconnect_attempts channel) 0 ≡ 0 =
      ground
        (arith, disconnect-attempts channel s, Dict.get-remove_self s.reconnect_attempts channel) in
    let closed_step : step b t (closes id random) ≡ on_close channel random u =
      rw (still, step) (rw same) in
    rw closed_step (
      fires-head b (on_close channel random u) _ t.retries (on_close-retries channel random u quiet)
        h)
