-- ===== src/Realtime/Heartbeat.antt =====
-- Heartbeat intervals of frontend/dashboard/src/services/websocket.ts.
use surakshanet.Base.{
  ℕ, ◌≤◌, ◌<◌, ◌≡◌, refl, String, List, [], ◌∷◌, arith, ◌==◌, str_eq_iff, or_else, All, find?, inl,
  inr, Option-cases,
}
use surakshanet.Base.Dict
use surakshanet.Base.Dict.{Dict}
use surakshanet.Realtime.State.{Link, Retry, Service, Browser, new}
use surakshanet.Realtime.Service.{
  stop_heartbeat, start_heartbeat, connect, on_open, on_close, disconnect, close_socket,
  cancel_retry, subscribe, unsubscribe, send, ping, add, delete, release_if_idle,
}
use surakshanet.Realtime.Steps.{
  Event, connects, disconnects, subscribes, unsubscribes, sends, opens, closes, fires, ticks,
  opening, closable, step, run,
}
use surakshanet.Realtime.Beats.{
  Tracked, Elsewhere, forget, absent, renewed, later, known, beats_of, none_left, fewer,
}

pub record Inv (s : Service) : Type 0 where
  pub tracked : Tracked s
  pub single : (channel : String) → beats_of channel s.beats ≤ 1
  pub positive : 0 < s.next_id

stop_heartbeat-Elsewhere :
    (channel : String) (s : Service)
    → Tracked s
    → All
        (Elsewhere channel (stop_heartbeat channel s).ping_intervals s.next_id)
        (stop_heartbeat channel s).beats
unfolding stop_heartbeat
stop_heartbeat-Elsewhere channel s h = elim (Option-cases (Dict.get s.ping_intervals channel)) [
  | inl e ↦ ground (arith, absent channel s.ping_intervals s.next_id s.beats)
  | inr (id, e) ↦ ground (
    arith,
    absent channel s.ping_intervals s.next_id s.beats,
    forget channel s.ping_intervals s.next_id id s.beats e,
  )
]

stop_heartbeat-fewer :
    (channel other : String) (s : Service)
    → beats_of other (stop_heartbeat channel s).beats ≤ beats_of other s.beats
unfolding stop_heartbeat
stop_heartbeat-fewer channel other s = elim (Option-cases (Dict.get s.ping_intervals channel)) [
  | inl e ↦ ground arith
  | inr (id, e) ↦ ground (arith, fewer other id s.beats)
]

stop_heartbeat-next_id :
    (channel : String) (s : Service) → (stop_heartbeat channel s).next_id ≡ s.next_id
unfolding stop_heartbeat
stop_heartbeat-next_id channel s = ground arith

stop_heartbeat-Inv : (channel : String) (s : Service) → Inv s → Inv (stop_heartbeat channel s)
stop_heartbeat-Inv channel s v = record {
  tracked =
      rw (stop_heartbeat-next_id channel s)
        (known channel _ _ _ (stop_heartbeat-Elsewhere channel s v.tracked));
  single = λ other. omega (arith, stop_heartbeat-fewer channel other s, v.single other);
  positive = rw (stop_heartbeat-next_id channel s) v.positive;
}

start_heartbeat-Inv :
    (channel : String) (socket : ℕ) (s : Service) → Inv s → Inv (start_heartbeat channel socket s)
unfolding start_heartbeat
start_heartbeat-Inv channel socket s v =
    let t = stop_heartbeat channel s in
    let e = stop_heartbeat-next_id channel s in
    let there = stop_heartbeat-Elsewhere channel s v.tracked in
    record {
      tracked = (
        (Dict.get-put_self t.ping_intervals channel t.next_id, rw e v.positive, omega arith),
        renewed channel t.ping_intervals t.next_id t.beats (rw e there),
      );
      single = λ other. ground (
        arith,
        none_left channel t.ping_intervals s.next_id t.beats there,
        stop_heartbeat-fewer channel other s,
        v.single other,
        str_eq_iff other channel,
      );
      positive = omega arith;
    }

-- What the operations that leave the heartbeats alone do to them.
abbrev Quiet : Service → Service → Type 0
Quiet s t = (t.ping_intervals ≡ s.ping_intervals) × (t.beats ≡ s.beats) × (s.next_id ≤ t.next_id)

Quiet-Inv : (s t : Service) → Quiet s t → Inv s → Inv t
Quiet-Inv s t (p, q, le) v = record {
  tracked = rw (p, q) (later s.ping_intervals s.next_id t.next_id s.beats le v.tracked);
  single = λ channel. rw q (v.single channel);
  positive = omega (arith, v.positive);
}

connect-Quiet : (b : Browser) (channel : String) (s : Service) → Quiet s (connect b channel s)
unfolding connect
connect-Quiet b channel s = ground arith

connect-Inv : (b : Browser) (channel : String) (s : Service) → Inv s → Inv (connect b channel s)
connect-Inv b channel s v = Quiet-Inv s _ (connect-Quiet b channel s) v

close_socket-Quiet : (channel : String) (s : Service) → Quiet s (close_socket channel s)
unfolding close_socket
close_socket-Quiet channel s = ground arith

cancel_retry-Quiet : (channel : String) (s : Service) → Quiet s (cancel_retry channel s)
unfolding cancel_retry
cancel_retry-Quiet channel s = ground arith

send-Quiet : (channel text : String) (s : Service) → Quiet s (send channel text s)
unfolding send
send-Quiet channel text s = ground arith

ping-Quiet : (socket : ℕ) (s : Service) → Quiet s (ping socket s)
unfolding ping
ping-Quiet socket s = ground arith

on_open-Inv : (channel : String) (socket : ℕ) (s : Service) → Inv s → Inv (on_open channel socket s)
unfolding on_open
on_open-Inv channel socket s v =
    start_heartbeat-Inv channel socket _ (Quiet-Inv s _ (refl, refl, omega arith) v)

on_close-Inv :
    (channel : String) (random : ℕ) (s : Service) → Inv s → Inv (on_close channel random s)
unfolding on_close
on_close-Inv channel random s v =
    let u : Service = record s { sockets = Dict.remove s.sockets channel } in
    Quiet-Inv (stop_heartbeat channel u) _ (ground arith)
      (stop_heartbeat-Inv channel u (Quiet-Inv s u (refl, refl, omega arith) v))

disconnect-Inv : (channel : String) (s : Service) → Inv s → Inv (disconnect channel s)
unfolding disconnect
disconnect-Inv channel s v =
    let u = close_socket channel s in
    stop_heartbeat-Inv channel _ (
      Quiet-Inv (cancel_retry channel u) _ (refl, refl, omega arith)
        (Quiet-Inv u _ (cancel_retry-Quiet channel u)
          (Quiet-Inv s u (close_socket-Quiet channel s) v)))

subscribe-Inv :
    (b : Browser) (channel : String) (cb : ℕ) (s : Service) → Inv s → Inv (subscribe b channel cb s)
unfolding subscribe
subscribe-Inv b channel cb s v =
    let t : Service = record s {
      callbacks = Dict.put s.callbacks channel (add cb (or_else (Dict.get s.callbacks channel) []));
    } in
    connect-Inv b channel t (Quiet-Inv s t (refl, refl, omega arith) v)

release_if_idle-Inv :
    (channel : String) (cbs : List ℕ) (s : Service) → Inv s → Inv (release_if_idle channel cbs s)
unfolding release_if_idle
release_if_idle-Inv channel [] s v = disconnect-Inv channel s v
release_if_idle-Inv channel (cb ∷ cbs) s v = v

unsubscribe-Inv : (channel : String) (cb : ℕ) (s : Service) → Inv s → Inv (unsubscribe channel cb s)
unfolding unsubscribe
unsubscribe-Inv channel cb s v = elim (Option-cases (Dict.get s.callbacks channel)) [
  | inl e ↦ rw (e, unsubscribe) v
  | inr (cbs, e) ↦
      rw (e, unsubscribe)
        (release_if_idle-Inv channel (delete cb cbs) _ (
          Quiet-Inv s (record s { callbacks = Dict.put s.callbacks channel (delete cb cbs) })
            (refl, refl, omega arith) v))
]

-- A change of the sockets' states, or of the pending retries, alone.
links-Inv : (s : Service) (links : List Link) → Inv s → Inv (record s { links = links })
links-Inv s links v = Quiet-Inv s _ (refl, refl, omega arith) v

retries-Inv : (s : Service) (retries : List Retry) → Inv s → Inv (record s { retries = retries })
retries-Inv s retries v = Quiet-Inv s _ (refl, refl, omega arith) v

-- Every event keeps the invariant.
pub step-Inv : (b : Browser) (s : Service) (e : Event) → Inv s → Inv (step b s e)
unfolding step
step-Inv b s (connects channel) v = connect-Inv b channel s v
step-Inv b s (disconnects channel) v = disconnect-Inv channel s v
step-Inv b s (subscribes channel cb) v = subscribe-Inv b channel cb s v
step-Inv b s (unsubscribes channel cb) v = unsubscribe-Inv channel cb s v
step-Inv b s (sends channel text) v = Quiet-Inv s _ (send-Quiet channel text s) v
step-Inv b s (opens id) v = elim (Option-cases (opening id s.links)) [
  | inl e ↦ rw (e, step) v
  | inr (l, e) ↦ rw (e, step) (on_open-Inv l.channel id _ (links-Inv s _ v))
]
step-Inv b s (closes id random) v = elim (Option-cases (closable id s.links)) [
  | inl e ↦ rw (e, step) v
  | inr (l, e) ↦ rw (e, step) (on_close-Inv l.channel random _ (links-Inv s _ v))
]
step-Inv b s (fires id) v = elim (Option-cases (find? (λ r. r.id == id) s.retries)) [
  | inl e ↦ rw (e, step) v
  | inr (r, e) ↦ rw (e, step) (connect-Inv b r.channel _ (retries-Inv s _ v))
]
step-Inv b s (ticks id) v = elim (Option-cases (find? (λ t. t.id == id) s.beats)) [
  | inl e ↦ rw (e, step) v
  | inr (t, e) ↦ rw (e, step) (Quiet-Inv s _ (ping-Quiet t.socket s) v)
]

run-Inv_from : (b : Browser) (s : Service) (es : List Event) → Inv s → Inv (run b s es)
unfolding run
run-Inv_from b s [] v = v
run-Inv_from b s (e ∷ es) v = run-Inv_from b (step b s e) es (step-Inv b s e v)

new-Inv : Inv new
unfolding new
new-Inv = record { tracked = tt; single = λ channel. omega arith; positive = omega arith }

-- After any events every active heartbeat interval is the one that the service has recorded for its
-- channel, so it can be cleared, and no channel has two.
pub run_heartbeats :
    (b : Browser) (es : List Event) (channel : String)
    → Tracked (run b new es) × (beats_of channel (run b new es).beats ≤ 1)
run_heartbeats b es channel = let v = run-Inv_from b new es new-Inv in (v.tracked, v.single channel)

-- Once a heartbeat is stopped its channel has no active interval.
pub stop_heartbeat-beats_of :
    (channel : String) (s : Service)
    → Tracked s
    → beats_of channel (stop_heartbeat channel s).beats ≡ 0
stop_heartbeat-beats_of channel s h = none_left channel _ _ _ (stop_heartbeat-Elsewhere channel s h)
