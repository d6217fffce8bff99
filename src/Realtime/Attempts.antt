-- ===== src/Realtime/Attempts.antt =====
-- The bound on reconnection of frontend/dashboard/src/services/websocket.ts.
use surakshanet.Base.{
  ℕ, ◌+◌, ◌-◌, ◌≤◌, ◌≡◌, min, String, false, List, [], ◌∷◌, arith, ◌==◌, str_eq, str_eq_iff,
  or_else, Option-cases, inl, inr, length, find?,
}
use surakshanet.Base.Dict
use surakshanet.Realtime.State.{Service, Browser, new}
use surakshanet.Realtime.Service.{
  stop_heartbeat, start_heartbeat, connect, on_open, on_close, disconnect, close_socket,
  cancel_retry, subscribe, unsubscribe, send, ping, delete, release_if_idle,
}
use surakshanet.Realtime.Steps.{
  Event, connects, disconnects, subscribes, unsubscribes, sends, opens, closes, fires, ticks,
  opening, closable, step, run,
}

-- `this.reconnectAttempts.get(channel) || 0`.
abbrev pub attempts_of : String → Service → ℕ
attempts_of channel s = or_else (Dict.get s.reconnect_attempts channel) 0

abbrev pub Capped : Service → Type 0
Capped s = (channel : String) → attempts_of channel s ≤ 20

-- What every operation but `on_open`, `on_close` and `disconnect` leaves alone.
abbrev Same : Service → Service → Type 0
Same s t = (t.reconnect_attempts ≡ s.reconnect_attempts) × (t.retries ≡ s.retries)

pub stop_heartbeat-Same : (channel : String) (s : Service) → Same s (stop_heartbeat channel s)
unfolding stop_heartbeat
stop_heartbeat-Same channel s = ground arith

pub connect-Same : (b : Browser) (channel : String) (s : Service) → Same s (connect b channel s)
unfolding connect
connect-Same b channel s = ground arith

-- One lost connection: the count goes up by one and one retry is scheduled, until the count is 20,
-- when nothing more is.
pub on_close_attempts :
    (channel : String) (random : ℕ) (s : Service)
    → attempts_of channel s ≤ 20
    → (attempts_of channel (on_close channel random s) ≡ min 20 (attempts_of channel s + 1))
      × (length (on_close channel random s).retries
          ≡ length s.retries + min 20 (attempts_of channel s + 1) - attempts_of channel s)
unfolding on_close
on_close_attempts channel random s h =
    let u : Service = record s { sockets = Dict.remove s.sockets channel } in
    let (p, q) = stop_heartbeat-Same channel u in
    ground (
      arith,
      Dict.get-put_self (stop_heartbeat channel u).reconnect_attempts channel
          (attempts_of channel s + 1),
    )

on_close_others :
    (channel other : String) (random : ℕ) (s : Service)
    → str_eq channel other ≡ false
    → attempts_of other (on_close channel random s) ≡ attempts_of other s
unfolding on_close
on_close_others channel other random s ne =
    let u : Service = record s { sockets = Dict.remove s.sockets channel } in
    let (p, q) = stop_heartbeat-Same channel u in
    ground (
      arith,
      Dict.get-put (stop_heartbeat channel u).reconnect_attempts channel (attempts_of channel s + 1)
          other,
    )

-- The network drops every connection before it opens: `flap` is one such round for each draw.
unfoldable pub flap : Browser → String → List ℕ → Service → Service
flap b channel [] s = s
flap b channel (random ∷ draws) s =
    flap b channel draws (on_close channel random (connect b channel s))

-- A channel that never opens is retried at most twenty times: after `n` losses in a row the count
-- is the smaller of 20 and n more than before, and as many retries have been scheduled as the count
-- has grown.
pub flap_bounded :
    (b : Browser) (channel : String) (draws : List ℕ) (s : Service)
    → attempts_of channel s ≤ 20
    → (attempts_of channel (flap b channel draws s) ≡ min 20 (attempts_of channel s + length draws))
      × (length (flap b channel draws s).retries
          ≡ length s.retries
            + min 20 (attempts_of channel s + length draws)
            - attempts_of channel s)
unfolding flap
flap_bounded b channel [] s h = omega arith
flap_bounded b channel (random ∷ draws) s h =
    let t = connect b channel s in
    let (p, q) = connect-Same b channel s in
    let (a, l) = on_close_attempts channel random t (rw p h) in
    ground (arith, flap_bounded b channel draws (on_close channel random t))

Same-Capped : (s t : Service) → Same s t → Capped s → Capped t
Same-Capped s t (p, q) h channel = rw p (h channel)

connect-Capped :
    (b : Browser) (channel : String) (s : Service) → Capped s → Capped (connect b channel s)
connect-Capped b channel s h = Same-Capped s (connect b channel s) (connect-Same b channel s) h

on_close-Capped :
    (channel : String) (random : ℕ) (s : Service) → Capped s → Capped (on_close channel random s)
on_close-Capped channel random s h other = ground (
  arith,
  h channel,
  h other,
  on_close_attempts channel random s (h channel),
  on_close_others channel other random s,
  str_eq_iff channel other,
)

on_open-Capped :
    (channel : String) (socket : ℕ) (s : Service) → Capped s → Capped (on_open channel socket s)
unfolding on_open start_heartbeat
on_open-Capped channel socket s h other =
    let u : Service = record s { reconnect_attempts = Dict.put s.reconnect_attempts channel 0 } in
    let (p, q) = stop_heartbeat-Same channel u in
    ground (arith, h other, Dict.get-put s.reconnect_attempts channel 0 other)

close_socket-Same : (channel : String) (s : Service) → Same s (close_socket channel s)
unfolding close_socket
close_socket-Same channel s = ground arith

cancel_retry-attempts :
    (channel : String) (s : Service)
    → (cancel_retry channel s).reconnect_attempts ≡ s.reconnect_attempts
unfolding cancel_retry
cancel_retry-attempts channel s = ground arith

pub disconnect-attempts :
    (channel : String) (s : Service)
    → (disconnect channel s).reconnect_attempts ≡ Dict.remove s.reconnect_attempts channel
unfolding disconnect
disconnect-attempts channel s =
    let u = close_socket channel s in
    let t = cancel_retry channel u in
    ground (
      arith,
      stop_heartbeat-Same channel
          (record t { reconnect_attempts = Dict.remove t.reconnect_attempts channel }),
      cancel_retry-attempts channel u,
      close_socket-Same channel s,
    )

disconnect-Capped : (channel : String) (s : Service) → Capped s → Capped (disconnect channel s)
disconnect-Capped channel s h other = ground (
  arith,
  h other,
  disconnect-attempts channel s,
  Dict.get-remove s.reconnect_attempts channel other,
)

release_if_idle-Capped :
    (channel : String) (cbs : List ℕ) (s : Service)
    → Capped s
    → Capped (release_if_idle channel cbs s)
unfolding release_if_idle
release_if_idle-Capped channel [] s h = disconnect-Capped channel s h
release_if_idle-Capped channel (cb ∷ cbs) s h = h

unsubscribe-Capped :
    (channel : String) (cb : ℕ) (s : Service) → Capped s → Capped (unsubscribe channel cb s)
unfolding unsubscribe
unsubscribe-Capped channel cb s h = elim (Option-cases (Dict.get s.callbacks channel)) [
  | inl e ↦ rw (e, unsubscribe) h
  | inr (cbs, e) ↦ rw (e, unsubscribe) (release_if_idle-Capped channel (delete cb cbs) _ h)
]

send-Same : (channel text : String) (s : Service) → Same s (send channel text s)
unfolding send
send-Same channel text s = ground arith

ping-Same : (socket : ℕ) (s : Service) → Same s (ping socket s)
unfolding ping
ping-Same socket s = ground arith

step-Capped : (b : Browser) (s : Service) (e : Event) → Capped s → Capped (step b s e)
unfolding step subscribe
step-Capped b s (connects channel) h = connect-Capped b channel s h
step-Capped b s (disconnects channel) h = disconnect-Capped channel s h
step-Capped b s (subscribes channel cb) h = connect-Capped b channel _ h
step-Capped b s (unsubscribes channel cb) h = unsubscribe-Capped channel cb s h
step-Capped b s (sends channel text) h =
    Same-Capped s (send channel text s) (send-Same channel text s) h
step-Capped b s (opens id) h = elim (Option-cases (opening id s.links)) [
  | inl e ↦ rw (e, step) h
  | inr (l, e) ↦ rw (e, step) (on_open-Capped l.channel id _ h)
]
step-Capped b s (closes id random) h = elim (Option-cases (closable id s.links)) [
  | inl e ↦ rw (e, step) h
  | inr (l, e) ↦ rw (e, step) (on_close-Capped l.channel random _ h)
]
step-Capped b s (fires id) h = elim (Option-cases (find? (λ r. r.id == id) s.retries)) [
  | inl e ↦ rw (e, step) h
  | inr (r, e) ↦ rw (e, step) (connect-Capped b r.channel _ h)
]
step-Capped b s (ticks id) h = elim (Option-cases (find? (λ t. t.id == id) s.beats)) [
  | inl e ↦ rw (e, step) h
  | inr (t, e) ↦ rw (e, step) (Same-Capped s (ping t.socket s) (ping-Same t.socket s) h)
]

run-Capped_from : (b : Browser) (s : Service) (es : List Event) → Capped s → Capped (run b s es)
unfolding run
run-Capped_from b s [] h = h
run-Capped_from b s (e ∷ es) h = run-Capped_from b (step b s e) es (step-Capped b s e h)

-- After any events no channel's count of reconnect attempts is above twenty.
run_capped :
    (b : Browser) (es : List Event) (channel : String) → attempts_of channel (run b new es) ≤ 20
run_capped b es = run-Capped_from b new es (λ channel. unfold new Dict.get in omega arith)
