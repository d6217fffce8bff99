-- ===== src/Visits/Reach.antt =====
-- From the socket to the page: a message that the WebSocket service receives reaches the page that is
-- mounted.
use surakshanet.Base.{
  ℕ, ◌≡◌, refl, ap, ◌∙◌, String, Bool, false, Option, some, List, [], ◌∷◌, map, arith, ◌==◌, ==_iff,
  if◌then◌else◌, any, All, Option-cases, Bool-cases, inl, inr,
}
use surakshanet.Base.Dict
use surakshanet.Realtime.State.{Link, Service, Browser}
use surakshanet.Realtime.Service.{receive}
use surakshanet.Realtime.Delivery.{
  QuietOn, deliver_every, subscribers, times, times-append, times_of_any,
}
use surakshanet.Realtime.Steps.{Event, open_link, message_on, run}
use surakshanet.Realtime.Subscribed.{Keeps, Subscribed, run-Subscribed}
use surakshanet.TrafficMap.{Page, TrafficMessage, on_traffic}
use surakshanet.Visits.{Subscription, map_page, connect_every, mount}
use surakshanet.Visits.Restored.{subscribers-connect_every, subscribers-listen_every}

-- What the calls that the service makes do to a page with one callback.
abbrev pub handled : {A P : Type 0} → ℕ → (A → P → P) → List (ℕ × A) → P → P
handled cb handler [] p = p
handled cb handler (c ∷ cs) p = handled cb handler cs (if c.0 == cb then handler c.1 p else p)

module _ {A : Type 0} (throws : ℕ → A → Bool) (parse : String → Option A) where
  quiet_every : (x : A) (cbs : List ℕ) → ((c : ℕ) → throws c x ≡ false) → All (QuietOn throws x) cbs
  quiet_every x [] h = tt
  quiet_every x (c ∷ cbs) h = (h c, quiet_every x cbs h)

  receive-subscribers :
      (channel text : String) (s : Service) (x : A)
      → parse text ≡ some x
      → ((c : ℕ) → throws c x ≡ false)
      → receive throws parse channel text s ≡ map (λ c. (c, x)) (subscribers channel s)
  unfolding receive
  receive-subscribers channel text s x p h = elim (Option-cases (Dict.get s.callbacks channel)) [
    | inl e ↦ rw (p, receive) (rw (e, receive) refl)
    | inr (cbs, e) ↦
        rw (p, receive) (rw (e, receive) (deliver_every throws cbs x (quiet_every x cbs h)))
  ]

module _ {A P : Type 0} (cb : ℕ) (handler : A → P → P) (x : A) where
  handled_never :
      (cbs : List ℕ) (p : P) → times cb cbs ≡ 0 → handled cb handler (map (λ c. (c, x)) cbs) p ≡ p
  handled_never [] p h = refl
  handled_never (c ∷ cbs) p h = elim (Bool-cases (c == cb)) [
    | inl e ↦ absurd (omega (arith, rw e at h))
    | inr e ↦
        let rest : times cb cbs ≡ 0 = rw e at h in
        ap (handled cb handler (map (λ c'. (c', x)) cbs)) (rw e refl) ∙ handled_never cbs p rest
  ]

  handled_once :
      (cbs : List ℕ) (p : P)
      → times cb cbs ≡ 1
      → handled cb handler (map (λ c. (c, x)) cbs) p ≡ handler x p
  handled_once [] p h = absurd (omega (arith, h))
  handled_once (c ∷ cbs) p h = elim (Bool-cases (c == cb)) [
    | inl e ↦
        let rest : times cb cbs ≡ 0 = ground (arith, h, e) in
        ap (handled cb handler (map (λ c'. (c', x)) cbs)) (rw e refl)
        ∙ handled_never cbs (handler x p) rest
    | inr e ↦
        let rest : times cb cbs ≡ 1 = rw e at h in
        ap (handled cb handler (map (λ c'. (c', x)) cbs)) (rw e refl) ∙ handled_once cbs p rest
  ]

times_self : (cb : ℕ) → times cb (cb ∷ []) ≡ 1
times_self cb = rw ((==_iff cb cb).1 refl) refl

-- The visit begins with the callback subscribed once.
mount-Subscribed :
    (b : Browser) (traffic signals : ℕ) (s : Service)
    → any (λ c. c == traffic) (subscribers "traffic" s) ≡ false
    → Subscribed "traffic" traffic (mount b (map_page traffic signals) s)
unfolding mount
mount-Subscribed b traffic signals s new =
    let ps : List Subscription = map_page traffic signals in
    let connected : Service = connect_every b ps s in
    let before : subscribers "traffic" connected ≡ subscribers "traffic" s =
      subscribers-connect_every b "traffic" ps s in
    rw (subscribers-listen_every b "traffic" ps connected, before, new)
      (omega (
        arith,
        times-append traffic (subscribers "traffic" s) (traffic ∷ []),
        times_of_any traffic (subscribers "traffic" s) new,
        times_self traffic,
      ))

-- From when the map page is mounted with new callbacks, and through whatever happens to the service as
-- long as its callback is not unsubscribed, so over reconnections and the visits of other pages, a
-- message that parses, on an open socket of the channel "traffic", does to the page what its handler
-- says, once, if no subscriber throws on it.
pub traffic_reaches_map :
    {F : Type 0} (to_text : ℕ → String) (throws : ℕ → TrafficMessage → Bool)
    (parse : String → Option TrafficMessage) (b : Browser) (traffic signals : ℕ) (s : Service)
    (es : List Event) (socket : ℕ) (l : Link) (text : String) (m : TrafficMessage) (p : Page F)
    → any (λ c. c == traffic) (subscribers "traffic" s) ≡ false
    → All (Keeps traffic) es
    → let now = run b (mount b (map_page traffic signals) s) es in
      open_link socket now.links ≡ some l
      → l.channel ≡ "traffic"
      → parse text ≡ some m
      → ((c : ℕ) → throws c m ≡ false)
      → handled traffic (on_traffic to_text) (message_on throws parse socket text now) p
        ≡ on_traffic to_text m p
unfolding message_on
traffic_reaches_map {F} to_text throws parse b traffic signals s es socket l text m p new kept is_on
      channel parses quiet =
    let now : Service = run b (mount b (map_page traffic signals) s) es in
    let once : times traffic (subscribers "traffic" now) ≡ 1 =
      run-Subscribed b "traffic" traffic (mount b (map_page traffic signals) s) es kept
        (mount-Subscribed b traffic signals s new) in
    rw (is_on, message_on)
      (rw (channel, receive-subscribers throws parse "traffic" text now m parses quiet)
        (handled_once traffic (on_traffic to_text) m (subscribers "traffic" now) p once))
