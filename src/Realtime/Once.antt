-- ===== src/Realtime/Once.antt =====
-- Which subscribers a channel has, over any events (frontend/dashboard/src/services/websocket.ts).
use surakshanet.Base.{
  ℕ, ◌≤◌, ◌≡◌, refl, ◌∙◌, String, false, List, [], ◌∷◌, arith, ◌==◌, if◌then◌else◌, str_eq,
  str_eq_iff, Option-cases, inl, inr, find?, any, count,
}
use surakshanet.Base.Dict
use surakshanet.Realtime.State.{Service, Browser}
use surakshanet.Realtime.Service.{
  stop_heartbeat, start_heartbeat, connect, on_open, on_close, disconnect, close_socket,
  cancel_retry, subscribe, unsubscribe, send, ping, add, delete, release_if_idle,
}
use surakshanet.Realtime.Steps.{
  Event, connects, disconnects, subscribes, unsubscribes, sends, opens, closes, fires, ticks,
  opening, closable, step,
}
use surakshanet.Realtime.Delivery.{times, subscribers, delete-add}

pub connect-callbacks :
    (b : Browser) (channel : String) (s : Service) → (connect b channel s).callbacks ≡ s.callbacks
unfolding connect
connect-callbacks b channel s = ground arith

stop_heartbeat-callbacks :
    (channel : String) (s : Service) → (stop_heartbeat channel s).callbacks ≡ s.callbacks
unfolding stop_heartbeat
stop_heartbeat-callbacks channel s = ground arith

disconnect-callbacks :
    (channel : String) (s : Service) → (disconnect channel s).callbacks ≡ s.callbacks
unfolding disconnect close_socket cancel_retry
disconnect-callbacks channel s = stop_heartbeat-callbacks channel _ ∙ ground arith

on_open-callbacks :
    (channel : String) (socket : ℕ) (s : Service)
    → (on_open channel socket s).callbacks ≡ s.callbacks
unfolding on_open start_heartbeat
on_open-callbacks channel socket s = stop_heartbeat-callbacks channel _

on_close-callbacks :
    (channel : String) (random : ℕ) (s : Service)
    → (on_close channel random s).callbacks ≡ s.callbacks
unfolding on_close
on_close-callbacks channel random s =
    let u : Service = record s { sockets = Dict.remove s.sockets channel } in
    ground (arith, stop_heartbeat-callbacks channel u)

send-callbacks :
    (channel text : String) (s : Service) → (send channel text s).callbacks ≡ s.callbacks
unfolding send
send-callbacks channel text s = ground arith

ping-callbacks : (socket : ℕ) (s : Service) → (ping socket s).callbacks ≡ s.callbacks
unfolding ping
ping-callbacks socket s = ground arith

release_if_idle-callbacks :
    (channel : String) (cbs : List ℕ) (s : Service)
    → (release_if_idle channel cbs s).callbacks ≡ s.callbacks
unfolding release_if_idle
release_if_idle-callbacks channel [] s = disconnect-callbacks channel s
release_if_idle-callbacks channel (cb ∷ cbs) s = refl

-- Subscribing adds the callback on its channel, and the function that it returns takes it out.
pub subscribe-subscribers :
    (b : Browser) (channel other : String) (cb : ℕ) (s : Service)
    → subscribers other (subscribe b channel cb s)
      ≡ (if str_eq channel other then add cb (subscribers channel s) else subscribers other s)
unfolding subscribe
subscribe-subscribers b channel other cb s =
    let cbs = add cb (subscribers channel s) in
    rw (connect-callbacks b channel (record s { callbacks = Dict.put s.callbacks channel cbs }))
      (ground (arith, Dict.get-put s.callbacks channel cbs other))

pub unsubscribe-subscribers :
    (channel other : String) (cb : ℕ) (s : Service)
    → subscribers other (unsubscribe channel cb s)
      ≡ (if str_eq channel other then delete cb (subscribers channel s) else subscribers other s)
unfolding unsubscribe
unsubscribe-subscribers channel other cb s = elim (Option-cases (Dict.get s.callbacks channel)) [
  | inl e ↦ rw (e, unsubscribe) (ground (arith, str_eq_iff channel other))
  | inr (cbs, e) ↦
      let t : Service = record s { callbacks = Dict.put s.callbacks channel (delete cb cbs) } in
      rw (e, unsubscribe)
        (rw (release_if_idle-callbacks channel (delete cb cbs) t)
          (ground (arith, Dict.get-put s.callbacks channel (delete cb cbs) other)))
]

-- A callback that is subscribed and then unsubscribed leaves every channel's subscribers as they
-- were, if it was not already among the channel's.
subscribe-unsubscribe :
    (b : Browser) (channel other : String) (cb : ℕ) (s : Service)
    → any (λ c. c == cb) (subscribers channel s) ≡ false
    → subscribers other (unsubscribe channel cb (subscribe b channel cb s)) ≡ subscribers other s
subscribe-unsubscribe b channel other cb s h = ground (
  arith,
  unsubscribe-subscribers channel other cb (subscribe b channel cb s),
  subscribe-subscribers b channel other cb s,
  subscribe-subscribers b channel channel cb s,
  str_eq_iff channel other,
  str_eq_iff channel channel,
  delete-add cb (subscribers channel s) h,
)

abbrev pub Once : Service → Type 0
Once s = (channel : String) (cb : ℕ) → times cb (subscribers channel s) ≤ 1

-- The events that neither subscribe nor unsubscribe.
abbrev pub IsQuiet : Event → Type 0
IsQuiet (subscribes channel cb) = ⊥
IsQuiet (unsubscribes channel cb) = ⊥
IsQuiet _ = Unit

pub step-callbacks :
    (b : Browser) (s : Service) (e : Event) → IsQuiet e → (step b s e).callbacks ≡ s.callbacks
unfolding step
step-callbacks b s (connects channel) q = connect-callbacks b channel s
step-callbacks b s (disconnects channel) q = disconnect-callbacks channel s
step-callbacks b s (subscribes channel cb) q = absurd q
step-callbacks b s (unsubscribes channel cb) q = absurd q
step-callbacks b s (sends channel text) q = send-callbacks channel text s
step-callbacks b s (opens id) q = elim (Option-cases (opening id s.links)) [
  | inl e ↦ rw (e, step) refl
  | inr (l, e) ↦ rw (e, step) (on_open-callbacks l.channel id _)
]
step-callbacks b s (closes id random) q = elim (Option-cases (closable id s.links)) [
  | inl e ↦ rw (e, step) refl
  | inr (l, e) ↦ rw (e, step) (on_close-callbacks l.channel random _)
]
step-callbacks b s (fires id) q = elim (Option-cases (find? (λ r. r.id == id) s.retries)) [
  | inl e ↦ rw (e, step) refl
  | inr (r, e) ↦ rw (e, step) (connect-callbacks b r.channel _)
]
step-callbacks b s (ticks id) q = elim (Option-cases (find? (λ t. t.id == id) s.beats)) [
  | inl e ↦ rw (e, step) refl
  | inr (t, e) ↦ rw (e, step) (ping-callbacks t.socket s)
]

-- How often a message is handed to a callback.
abbrev pub calls {ℓ} : {A : Type ℓ} → ℕ → List (ℕ × A) → ℕ
calls cb = count (λ p. p.0 == cb)
