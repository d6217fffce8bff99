-- ===== src/Visits/Restored.antt =====
-- A visit of a page leaves the WebSocket service's subscribers as they were.
use surakshanet.Base.{
  ℕ, ◌≡◌, refl, ap, ◌∙◌, String, false, List, [], ◌∷◌, ◌==◌, str_eq, str_eq_of_true, if◌then◌else◌,
  any, All, Bool-cases, inl, inr,
}
use surakshanet.Realtime.State.{Service, Browser}
use surakshanet.Realtime.Service.{connect, on_message, unsubscribe, add, delete}
use surakshanet.Realtime.Delivery.{subscribers, delete-add}
use surakshanet.Realtime.Once.{connect-callbacks, subscribe-subscribers, unsubscribe-subscribers}
use surakshanet.Visits.{Subscription, connect_every, listen_every, mount, leave}

-- What listening and leaving make of the subscribers of one channel.
abbrev pub added : String → List Subscription → List ℕ → List ℕ
added channel [] cbs = cbs
added channel (p ∷ ps) cbs = added channel ps (if str_eq p.0 channel then add p.1 cbs else cbs)

abbrev deleted : String → List Subscription → List ℕ → List ℕ
deleted channel [] cbs = cbs
deleted channel (p ∷ ps) cbs =
    deleted channel ps (if str_eq p.0 channel then delete p.1 cbs else cbs)

pub subscribers-connect_every :
    (b : Browser) (channel : String) (ps : List Subscription) (s : Service)
    → subscribers channel (connect_every b ps s) ≡ subscribers channel s
subscribers-connect_every b channel [] s = refl
subscribers-connect_every b channel (p ∷ ps) s =
    subscribers-connect_every b channel ps (connect b p.0 s) ∙ rw (connect-callbacks b p.0 s) refl

one_added :
    (b : Browser) (channel : String) (p : Subscription) (s : Service)
    → subscribers channel (on_message b p.0 p.1 s)
      ≡ (if str_eq p.0 channel then add p.1 (subscribers channel s) else subscribers channel s)
unfolding on_message
one_added b channel p s = elim (Bool-cases (str_eq p.0 channel)) [
  | inl e ↦
      let same : p.0 ≡ channel = str_eq_of_true e in
      subscribe-subscribers b p.0 channel p.1 s ∙ rw (e, same) refl
  | inr e ↦ subscribe-subscribers b p.0 channel p.1 s ∙ rw e refl
]

pub subscribers-listen_every :
    (b : Browser) (channel : String) (ps : List Subscription) (s : Service)
    → subscribers channel (listen_every b ps s) ≡ added channel ps (subscribers channel s)
subscribers-listen_every b channel [] s = refl
subscribers-listen_every b channel (p ∷ ps) s =
    subscribers-listen_every b channel ps (on_message b p.0 p.1 s)
    ∙ ap (added channel ps) (one_added b channel p s)

one_deleted :
    (channel : String) (p : Subscription) (s : Service)
    → subscribers channel (unsubscribe p.0 p.1 s)
      ≡ (if str_eq p.0 channel then delete p.1 (subscribers channel s) else subscribers channel s)
one_deleted channel p s = elim (Bool-cases (str_eq p.0 channel)) [
  | inl e ↦
      let same : p.0 ≡ channel = str_eq_of_true e in
      unsubscribe-subscribers p.0 channel p.1 s ∙ rw (e, same) refl
  | inr e ↦ unsubscribe-subscribers p.0 channel p.1 s ∙ rw e refl
]

subscribers-leave :
    (channel : String) (ps : List Subscription) (s : Service)
    → subscribers channel (leave ps s) ≡ deleted channel ps (subscribers channel s)
unfolding leave
subscribers-leave channel [] s = refl
subscribers-leave channel (p ∷ ps) s =
    subscribers-leave channel ps (unsubscribe p.0 p.1 s)
    ∙ ap (deleted channel ps) (one_deleted channel p s)

-- Subscriptions to other channels than one, and to channels that are all different.
abbrev pub Elsewhere : String → Subscription → Type 0
Elsewhere channel p = str_eq p.0 channel ≡ false

abbrev pub Different : List Subscription → Type 0
Different [] = Unit
Different (p ∷ ps) = All (Elsewhere p.0) ps × Different ps

-- A callback that is not yet among the subscribers of its channel.
abbrev pub Fresh : Service → Subscription → Type 0
Fresh s p = any (λ c. c == p.1) (subscribers p.0 s) ≡ false

added-Elsewhere :
    (channel : String) (ps : List Subscription) (cbs : List ℕ)
    → All (Elsewhere channel) ps
    → added channel ps cbs ≡ cbs
added-Elsewhere channel [] cbs h = refl
added-Elsewhere channel (p ∷ ps) cbs h = rw h.0 (added-Elsewhere channel ps cbs h.1)

deleted-Elsewhere :
    (channel : String) (ps : List Subscription) (cbs : List ℕ)
    → All (Elsewhere channel) ps
    → deleted channel ps cbs ≡ cbs
deleted-Elsewhere channel [] cbs h = refl
deleted-Elsewhere channel (p ∷ ps) cbs h = rw h.0 (deleted-Elsewhere channel ps cbs h.1)

restored :
    (channel : String) (ps : List Subscription) (s : Service)
    → Different ps
    → All (Fresh s) ps
    → deleted channel ps (added channel ps (subscribers channel s)) ≡ subscribers channel s
restored channel [] s d f = refl
restored channel (p ∷ ps) s d f = elim (Bool-cases (str_eq p.0 channel)) [
  | inr e ↦ rw e (restored channel ps s d.1 f.1)
  | inl e ↦
      let same : p.0 ≡ channel = str_eq_of_true e in
      let others : All (Elsewhere channel) ps = rw (← same) d.0 in
      let fresh : any (λ c. c == p.1) (subscribers channel s) ≡ false = rw (← same) f.0 in
      rw
        (
          e,
          added-Elsewhere channel ps (add p.1 (subscribers channel s)) others,
          delete-add p.1 (subscribers channel s) fresh,
        )
        (deleted-Elsewhere channel ps (subscribers channel s) others)
]

-- A page that is mounted and then left, whose channels are different and whose callbacks are new, leaves
-- the subscribers of every channel as they were.
pub leave-mount :
    (b : Browser) (channel : String) (ps : List Subscription) (s : Service)
    → Different ps
    → All (Fresh s) ps
    → subscribers channel (leave ps (mount b ps s)) ≡ subscribers channel s
unfolding mount
leave-mount b channel ps s d f =
    let connected : Service = connect_every b ps s in
    let before = subscribers-connect_every b channel ps s in
    subscribers-leave channel ps (listen_every b ps connected)
    ∙ (ap (deleted channel ps) (subscribers-listen_every b channel ps connected)
        ∙ rw before (restored channel ps s d f))
