-- ===== src/Realtime/Service.antt =====
-- The methods and handlers of `WebSocketService` (frontend/dashboard/src/services/websocket.ts).
-- Console output is left out. `JSON.parse` and `JSON.stringify` are parameters.
use surakshanet.Base.{
  ℕ, suc, ◌+◌, String, Bool, true, false, not, ◌||◌, Option, none, some, List, [], ◌∷◌, ◌++◌, ◌==◌,
  leb, str_eq, if◌then◌else◌, or_else, filter, any, ◌<>◌,
}
use surakshanet.Base.Dict
use surakshanet.Realtime.Backoff.{max_attempts, delay}
use surakshanet.Realtime.State.{
  ReadyState, connecting, opened, closing, closed, Link, Service, Browser,
}

secure : String → String
secure protocol = if str_eq protocol "https:" then "wss:" else "ws:"

-- An empty `VITE_API_URL` is falsy.
unfoldable pub ws_url : Browser → String → String
unfolding secure
ws_url b channel = elim b.api_url [
  | none ↦ local
  | some url ↦ if str_eq url "" then local else elim (b.parse_url url) [
    | none ↦ local
    | some (protocol, host) ↦ secure protocol <> "//" <> host <> "/ws/" <> channel
  ]
]
  where
    local : String
    local = secure b.protocol <> "//" <> b.host <> "/ws/" <> channel

-- `if (interval) { clearInterval(interval); this.pingIntervals.delete(channel); }`
unfoldable pub stop_heartbeat : String → Service → Service
stop_heartbeat channel s = elim (Dict.get s.ping_intervals channel) [
  | none ↦ s
  | some interval ↦ if interval == 0 then s else record s {
    beats = filter (λ b. not (b.id == interval)) s.beats;
    ping_intervals = Dict.remove s.ping_intervals channel;
  }
]

unfoldable pub start_heartbeat : String → ℕ → Service → Service
start_heartbeat channel socket s =
    let t = stop_heartbeat channel s in
    record t {
      beats = record { id = t.next_id; channel = channel; socket = socket } ∷ t.beats;
      ping_intervals = Dict.put t.ping_intervals channel t.next_id;
      next_id = suc t.next_id;
    }

unfoldable pub connect : Browser → String → Service → Service
connect b channel s =
    if Dict.has s.sockets channel || not (b.constructs (ws_url b channel)) then s else record s {
      links =
          record { id = s.next_id; channel = channel; url = ws_url b channel; ready = connecting }
          ∷ s.links;
      sockets = Dict.put s.sockets channel s.next_id;
      next_id = suc s.next_id;
    }

abbrev pub set_ready : ℕ → ReadyState → List Link → List Link
set_ready id ready [] = []
set_ready id ready (l ∷ links) =
    record l { ready = if l.id == id then ready else l.ready } ∷ set_ready id ready links

abbrev pub closing_of : ReadyState → ReadyState
closing_of closed = closed
closing_of _ = closing

-- `ws.onopen`.
unfoldable pub on_open : String → ℕ → Service → Service
on_open channel socket s =
    start_heartbeat channel socket
      (record s { reconnect_attempts = Dict.put s.reconnect_attempts channel 0 })

-- `ws.onclose`. `random` is the numerator of `Math.random()`.
unfoldable pub on_close : String → ℕ → Service → Service
on_close channel random s =
    let t = stop_heartbeat channel (record s { sockets = Dict.remove s.sockets channel }) in
    let attempts = or_else (Dict.get t.reconnect_attempts channel) 0 in
    if leb max_attempts attempts then t else record t {
      reconnect_attempts = Dict.put t.reconnect_attempts channel (attempts + 1);
      retries =
          record { id = t.next_id; channel = channel; delay_ms = delay attempts random }
          ∷ t.retries;
      reconnect_timeouts = Dict.put t.reconnect_timeouts channel t.next_id;
      next_id = suc t.next_id;
    }

-- `ws.close()`: a closed socket stays closed.
abbrev pub close_link : ℕ → List Link → List Link
close_link id [] = []
close_link id (l ∷ links) =
    record l { ready = if l.id == id then closing_of l.ready else l.ready } ∷ close_link id links

-- The first part of `disconnect`: `ws.close()`, whose `onclose` the browser calls later.
unfoldable pub close_socket : String → Service → Service
close_socket channel s = elim (Dict.get s.sockets channel) [
  | none ↦ s
  | some ws ↦ record s { links = close_link ws s.links; sockets = Dict.remove s.sockets channel }
]

-- The second: `if (timeout) { clearTimeout(timeout); this.reconnectTimeouts.delete(channel); }`
unfoldable pub cancel_retry : String → Service → Service
cancel_retry channel s = elim (Dict.get s.reconnect_timeouts channel) [
  | none ↦ s
  | some timeout ↦ if timeout == 0 then s else record s {
    retries = filter (λ r. not (r.id == timeout)) s.retries;
    reconnect_timeouts = Dict.remove s.reconnect_timeouts channel;
  }
]

unfoldable pub disconnect : String → Service → Service
disconnect channel s =
    let t = cancel_retry channel (close_socket channel s) in
    stop_heartbeat channel
      (record t { reconnect_attempts = Dict.remove t.reconnect_attempts channel })

-- `Set.add` and `Set.delete`; the set is in the order of insertion.
abbrev pub add : ℕ → List ℕ → List ℕ
add cb cbs = if any (λ c. c == cb) cbs then cbs else cbs ++ cb ∷ []

abbrev pub delete : ℕ → List ℕ → List ℕ
delete cb cbs = filter (λ c. not (c == cb)) cbs

unfoldable pub subscribe : Browser → String → ℕ → Service → Service
subscribe b channel cb s = connect b channel (record s {
  callbacks = Dict.put s.callbacks channel (add cb (or_else (Dict.get s.callbacks channel) []));
})

-- `if (channelCallbacks.size === 0) { this.disconnect(channel); }`
unfoldable pub release_if_idle : String → List ℕ → Service → Service
release_if_idle channel [] s = disconnect channel s
release_if_idle channel (cb ∷ cbs) s = s

-- The function that `subscribe` returns.
unfoldable pub unsubscribe : String → ℕ → Service → Service
unsubscribe channel cb s = elim (Dict.get s.callbacks channel) [
  | none ↦ s
  | some cbs ↦
      release_if_idle channel (delete cb cbs)
        (record s { callbacks = Dict.put s.callbacks channel (delete cb cbs) })
]

-- `onMessage` is `subscribe` under another name.
unfoldable pub on_message : Browser → String → ℕ → Service → Service
on_message = subscribe

abbrev pub is_open : ReadyState → Bool
is_open opened = true
is_open _ = false

abbrev pub ready_of : ℕ → List Link → Option ReadyState
ready_of id [] = none
ready_of id (l ∷ links) = if l.id == id then some l.ready else ready_of id links

-- `ws.send(text)` on an open socket.
abbrev pub transmit : ℕ → String → Service → Service
transmit socket text s =
    if is_open (or_else (ready_of socket s.links) closed)
    then record s { sent = (socket, text) ∷ s.sent }
    else s

-- `send(channel, data)`, with `text` for `JSON.stringify(data)`.
unfoldable pub send : String → String → Service → Service
send channel text s = elim (Dict.get s.sockets channel) [ none ↦ s | some ws ↦ transmit ws text s ]

-- One tick of a heartbeat interval.
unfoldable pub ping : ℕ → Service → Service
ping socket s = transmit socket "{\"type\":\"ping\"}" s

-- `channelCallbacks.forEach(cb => cb(data))` inside `try`: the calls made, in order. `throws` says
-- whether a callback throws on the data; the rest are then not called.
module _ {ℓ} {A : Type ℓ} (throws : ℕ → A → Bool) where
  unfoldable pub deliver : List ℕ → A → List (ℕ × A)
  deliver [] x = []
  deliver (cb ∷ cbs) x = let rest = deliver cbs x in (cb, x) ∷ (if throws cb x then [] else rest)

  -- `ws.onmessage` of a socket of the channel, with `parse` for `JSON.parse`, `none` where it throws.
  -- The browser calls it only while that socket is open: see `message_on` in Steps.
  unfoldable pub receive : (String → Option A) → String → String → Service → List (ℕ × A)
  unfolding deliver
  receive parse channel text s = elim (parse text) [
    | none ↦ []
    | some x ↦ elim (Dict.get s.callbacks channel) [ none ↦ [] | some cbs ↦ deliver cbs x ]
  ]
