-- ===== src/Realtime/Steps.antt =====
-- What happens to the service, one event at a time: calls of its methods, and callbacks that the
-- browser makes. A callback that the browser cannot make at that point changes nothing.
use surakshanet.Base.{
  ℕ, String, Bool, true, false, not, ◌&&◌, Option, none, some, List, [], ◌∷◌, ◌==◌, filter, find?,
}
use surakshanet.Realtime.State.{ReadyState, connecting, opened, closed, Link, Service, Browser}
use surakshanet.Realtime.Service.{
  connect, disconnect, subscribe, unsubscribe, send, on_open, on_close, ping, set_ready, is_open,
  receive,
}

pub data Event : Type 0 where
  -- the methods, and the function that `subscribe` returned
  connects disconnects : String → Event
  subscribes unsubscribes : String → ℕ → Event
  sends : String → String → Event
  -- the browser's callbacks: a socket opens, a socket closes, a timeout fires, an interval ticks
  opens : ℕ → Event
  closes : ℕ → ℕ → Event
  fires ticks : ℕ → Event

abbrev pub is_connecting : ReadyState → Bool
is_connecting connecting = true
is_connecting _ = false

abbrev pub is_closed : ReadyState → Bool
is_closed closed = true
is_closed _ = false

-- The sockets, timeouts and intervals that an event can concern.
abbrev pub opening : ℕ → List Link → Option Link
opening id = find? (λ l. l.id == id && is_connecting l.ready)

abbrev pub closable : ℕ → List Link → Option Link
closable id = find? (λ l. l.id == id && not (is_closed l.ready))

-- The socket of that number, if it is open.
abbrev pub open_link : ℕ → List Link → Option Link
open_link id = find? (λ l. l.id == id && is_open l.ready)

-- A message on a socket: the browser hands it to the socket's `onmessage` only while that is open. What
-- comes out is the calls that are made, each with its argument.
unfoldable pub message_on :
    {A : Type 0} → (ℕ → A → Bool) → (String → Option A) → ℕ → String → Service → List (ℕ × A)
message_on throws parse socket text s = elim (open_link socket s.links) [
  | none ↦ []
  | some l ↦ receive throws parse l.channel text s
]

module _ (b : Browser) where
  unfoldable pub step : Service → Event → Service
  step s (connects channel) = connect b channel s
  step s (disconnects channel) = disconnect channel s
  step s (subscribes channel cb) = subscribe b channel cb s
  step s (unsubscribes channel cb) = unsubscribe channel cb s
  step s (sends channel text) = send channel text s
  step s (opens id) = elim (opening id s.links) [
    | none ↦ s
    | some l ↦ on_open l.channel id (record s { links = set_ready id opened s.links })
  ]
  step s (closes id random) = elim (closable id s.links) [
    | none ↦ s
    | some l ↦ on_close l.channel random (record s { links = set_ready id closed s.links })
  ]
  step s (fires id) = elim (find? (λ r. r.id == id) s.retries) [
    | none ↦ s
    | some r ↦ connect b r.channel (record s { retries = filter (λ q. not (q.id == id)) s.retries })
  ]
  step s (ticks id) = elim (find? (λ t. t.id == id) s.beats) [ none ↦ s | some t ↦ ping t.socket s ]

  unfoldable pub run : Service → List Event → Service
  run s [] = s
  run s (e ∷ es) = run (step s e) es
