-- ===== src/Realtime/Subscribed.antt =====
-- A callback stays subscribed over any events of the service but those that unsubscribe it
-- (frontend/dashboard/src/services/websocket.ts).
use surakshanet.Base.{
  ℕ, ◌≤◌, ◌≡◌, refl, String, false, List, [], ◌∷◌, arith, ◌==◌, ==_iff, All, str_eq_iff,
}
use surakshanet.Realtime.State.{Service, Browser}
use surakshanet.Realtime.Service.{add, delete}
use surakshanet.Realtime.Steps.{
  Event, connects, disconnects, subscribes, unsubscribes, sends, opens, closes, fires, ticks, step,
  run,
}
use surakshanet.Realtime.Delivery.{times, subscribers, times-add, times-append}
use surakshanet.Realtime.Once.{
  IsQuiet, step-callbacks, subscribe-subscribers, unsubscribe-subscribers,
}

-- The events that do not unsubscribe a callback.
abbrev pub Keeps : ℕ → Event → Type 0
Keeps cb (unsubscribes channel c) = (c == cb) ≡ false
Keeps cb _ = Unit

times-delete_other :
    (cb gone : ℕ) (cbs : List ℕ) → (gone == cb) ≡ false → times cb (delete gone cbs) ≡ times cb cbs
times-delete_other cb gone [] h = refl
times-delete_other cb gone (c ∷ cbs) h =
    ground (arith, times-delete_other cb gone cbs h, ==_iff gone cb, ==_iff c cb, ==_iff c gone)

times-add_once : (cb new_cb : ℕ) (cbs : List ℕ) → times cb cbs ≡ 1 → times cb (add new_cb cbs) ≡ 1
times-add_once cb new_cb cbs h =
    let most : times cb (add new_cb cbs) ≤ 1 = times-add cb new_cb cbs (omega (arith, h)) in
    ground (arith, most, times-append cb cbs (new_cb ∷ []))

-- A callback is subscribed once to a channel.
abbrev pub Subscribed : String → ℕ → Service → Type 0
Subscribed channel cb s = times cb (subscribers channel s) ≡ 1

module _ (b : Browser) (channel : String) (cb : ℕ) where
  quiet-Subscribed :
      (s : Service) (e : Event)
      → IsQuiet e
      → Subscribed channel cb s
      → Subscribed channel cb (step b s e)
  quiet-Subscribed s e q h = rw (step-callbacks b s e q) h

  step-Subscribed :
      (s : Service) (e : Event)
      → Keeps cb e
      → Subscribed channel cb s
      → Subscribed channel cb (step b s e)
  step-Subscribed s (connects other) k h = quiet-Subscribed s (connects other) tt h
  step-Subscribed s (disconnects other) k h = quiet-Subscribed s (disconnects other) tt h
  step-Subscribed s (subscribes other c) k h =
      unfold step in
      rw (subscribe-subscribers b other channel c s)
        (ground (arith, str_eq_iff other channel, times-add_once cb c (subscribers channel s) h))
  step-Subscribed s (unsubscribes other c) k h =
      unfold step in
      rw (unsubscribe-subscribers other channel c s) (
        ground (arith, str_eq_iff other channel, times-delete_other cb c (subscribers channel s) k))
  step-Subscribed s (sends other text) k h = quiet-Subscribed s (sends other text) tt h
  step-Subscribed s (opens id) k h = quiet-Subscribed s (opens id) tt h
  step-Subscribed s (closes id random) k h = quiet-Subscribed s (closes id random) tt h
  step-Subscribed s (fires id) k h = quiet-Subscribed s (fires id) tt h
  step-Subscribed s (ticks id) k h = quiet-Subscribed s (ticks id) tt h

  pub run-Subscribed :
      (s : Service) (es : List Event)
      → All (Keeps cb) es
      → Subscribed channel cb s
      → Subscribed channel cb (run b s es)
  unfolding run
  run-Subscribed s [] k h = h
  run-Subscribed s (e ∷ es) k h = run-Subscribed (step b s e) es k.1 (step-Subscribed s e k.0 h)
