-- ===== src/Alerts/Honesty.antt =====
-- What the page of frontend/dashboard/src/pages/AlertsPage.tsx may show while polls and acknowledgements
-- overtake each other.
use surakshanet.Base.{
  drop_at, ℕ, zero, suc, ◌≡◌, refl, ap, ◌∙◌, String, Bool, true, false, not, ◌||◌, List, [], ◌∷◌,
  map, arith, str_eq, str_eq_of_true, if◌then◌else◌, get_elem?, All, All-imp, All-append, All-get,
  Bool-cases, Option-cases, inl, inr,
}
use surakshanet.Alerts.{
  AlertItem, Page, Fetched, array, nothing, failed, initial, fetch_starts, fetch_alerts, mark,
  handle_acknowledge,
}
use surakshanet.Alerts.Polling.{
  Net, Event, poll_starts, server_lists, poll_fails, poll_arrives, answers, arrives, clicks, raises,
  knows, acked, happen, run, honest, IsHonest, new_net,
}
use surakshanet.Alerts.Acked.{
  Grows, acked-mark, knows-acked, acked-raise, IsHonest-Grows, server-IsHonest,
}

All-drop_at : {A : Type 0} (P : A → Type 0) (i : ℕ) (xs : List A) → All P xs → All P (drop_at i xs)
All-drop_at P i [] h = tt
All-drop_at P zero (x ∷ xs) (h, hs) = hs
All-drop_at P (suc i) (x ∷ xs) (h, hs) = (h, All-drop_at P i xs hs)

abbrev Fair : List AlertItem → Fetched → Type 0
Fair s (array alerts) = IsHonest s alerts
Fair s nothing = Unit
Fair s failed = Unit

-- An acknowledgement that the server has accepted is one that it has.
abbrev Kept : List AlertItem → String × Bool → Type 0
Kept s r = (not r.1 || acked s r.0) ≡ true

record Inv (n : Net) : Type 0 where
  page : IsHonest n.server n.page.alerts
  polled : All (Fair n.server) n.polled
  answered : All (Kept n.server) n.answered

Fair-Grows : (s s' : List AlertItem) (f : Fetched) → Grows s s' → Fair s f → Fair s' f
Fair-Grows s s' (array xs) g h = IsHonest-Grows s s' xs g h
Fair-Grows s s' nothing g h = h
Fair-Grows s s' failed g h = h

Kept-Grows : (s s' : List AlertItem) (r : String × Bool) → Grows s s' → Kept s r → Kept s' r
Kept-Grows s s' (id, ok) g h = ground (arith, g id)

-- A server that has acknowledged more keeps what was so.
Inv-Grows :
    (n : Net) (s : List AlertItem) → Grows n.server s → Inv n → Inv (record n { server = s })
Inv-Grows n s g h = record {
  page = IsHonest-Grows n.server s n.page.alerts g h.page;
  polled = All-imp (Fair n.server) (Fair s) n.polled (λ f. Fair-Grows n.server s f g) h.polled;
  answered =
      All-imp (Kept n.server) (Kept s) n.answered (λ r. Kept-Grows n.server s r g) h.answered;
}

fetched-IsHonest :
    (s : List AlertItem) (f : Fetched) (p : Page)
    → Fair s f
    → IsHonest s p.alerts
    → IsHonest s (fetch_alerts f p).alerts
unfolding fetch_alerts
fetched-IsHonest s (array xs) p h k = h
fetched-IsHonest s nothing p h k = k
fetched-IsHonest s failed p h k = k

honest-mark :
    (s : List AlertItem) (id : String) (a : AlertItem)
    → acked s id ≡ true
    → honest s a ≡ true
    → honest s (mark id a) ≡ true
honest-mark s id a h k = elim (Bool-cases (str_eq a.id id)) [
  | inl same ↦
      let known : acked s a.id ≡ true = ap (acked s) (str_eq_of_true same) ∙ h in
      rw (same, known) refl
  | inr other ↦ rw other k
]

marked-IsHonest :
    (s : List AlertItem) (id : String) (xs : List AlertItem)
    → acked s id ≡ true
    → IsHonest s xs
    → IsHonest s (map (mark id) xs)
marked-IsHonest s id [] h k = tt
marked-IsHonest s id (x ∷ xs) h (k, ks) = (honest-mark s id x h k, marked-IsHonest s id xs h ks)

acknowledged-IsHonest :
    (s : List AlertItem) (id : String) (ok : Bool) (p : Page)
    → Kept s (id, ok)
    → IsHonest s p.alerts
    → IsHonest s (handle_acknowledge id ok p).alerts
unfolding handle_acknowledge
acknowledged-IsHonest s id true p h k = marked-IsHonest s id p.alerts h k
acknowledged-IsHonest s id false p h k = k

abbrev answered_server : List AlertItem → String → List AlertItem
answered_server s id = if knows s id then map (mark id) s else s

answered-Grows : (s : List AlertItem) (id : String) → Grows s (answered_server s id)
answered-Grows s id = elim (Bool-cases (knows s id)) [
  | inl known ↦ rw known (acked-mark id s)
  | inr unknown ↦ rw unknown (λ i h. h)
]

answered-Kept : (s : List AlertItem) (id : String) → Kept (answered_server s id) (id, knows s id)
answered-Kept s id = elim (Bool-cases (knows s id)) [
  | inl known ↦ rw known (knows-acked id s known)
  | inr unknown ↦ rw unknown refl
]

module _ (listing : List AlertItem → List AlertItem)
    (lists : (P : AlertItem → Type 0) (s : List AlertItem) → All P s → All P (listing s)) where
  poll-Inv : (i : ℕ) (n : Net) → Inv n → Inv (happen listing (poll_arrives i) n)
  unfolding happen
  poll-Inv i n h = elim (Option-cases (get_elem? n.polled i)) [
    | inl gone ↦ rw gone h
    | inr (f, here) ↦ rw here (record {
      page =
          fetched-IsHonest n.server f n.page (All-get (Fair n.server) n.polled i f h.polled here)
            h.page;
      polled = All-drop_at (Fair n.server) i n.polled h.polled;
      answered = h.answered;
    })
  ]

  answer-Inv : (i : ℕ) (n : Net) → Inv n → Inv (happen listing (answers i) n)
  unfolding happen
  answer-Inv i n h = elim (Option-cases (get_elem? n.asked i)) [
    | inl gone ↦ rw gone h
    | inr (id, here) ↦
        let s = answered_server n.server id in
        let kept = Inv-Grows n s (answered-Grows n.server id) h in
        rw here (record {
          page = kept.page;
          polled = kept.polled;
          answered =
              All-append (Kept s) n.answered ((id, knows n.server id) ∷ []) kept.answered
                (answered-Kept n.server id, tt);
        })
  ]

  arrive-Inv : (i : ℕ) (n : Net) → Inv n → Inv (happen listing (arrives i) n)
  unfolding happen
  arrive-Inv i n h = elim (Option-cases (get_elem? n.answered i)) [
    | inl gone ↦ rw gone h
    | inr ((id, ok), here) ↦ rw here (record {
      page =
          acknowledged-IsHonest n.server id ok n.page
            (All-get (Kept n.server) n.answered i (id, ok) h.answered here) h.page;
      polled = h.polled;
      answered = All-drop_at (Kept n.server) i n.answered h.answered;
    })
  ]

  happen-Inv : (e : Event) (n : Net) → Inv n → Inv (happen listing e n)
  unfolding happen fetch_starts
  happen-Inv poll_starts n h = record { page = h.page; polled = h.polled; answered = h.answered }
  happen-Inv server_lists n h = record {
    page = h.page;
    polled =
        All-append (Fair n.server) n.polled (array (listing n.server) ∷ []) h.polled
          (lists (λ a. honest n.server a ≡ true) n.server (server-IsHonest n.server), tt);
    answered = h.answered;
  }
  happen-Inv poll_fails n h = record {
    page = h.page;
    polled = All-append (Fair n.server) n.polled (failed ∷ []) h.polled (tt, tt);
    answered = h.answered;
  }
  happen-Inv (poll_arrives i) n h = poll-Inv i n h
  happen-Inv (clicks id) n h = record { page = h.page; polled = h.polled; answered = h.answered }
  happen-Inv (answers i) n h = answer-Inv i n h
  happen-Inv (arrives i) n h = arrive-Inv i n h
  happen-Inv (raises a) n h = Inv-Grows n (a ∷ n.server) (acked-raise a n.server) h

  run-Inv : (es : List Event) (n : Net) → Inv n → Inv (run listing es n)
  unfolding run
  run-Inv [] n h = h
  run-Inv (e ∷ es) n h = run-Inv es (happen listing e n) (happen-Inv e n h)

  -- However polls and acknowledgements overtake each other from the mount of the page on, the page shows
  -- an alert as acknowledged only where the server has an acknowledged alert of that id, if the server
  -- lists no alerts but its own and none is deleted there.
  pub run-IsHonest :
      (es : List Event) (server : List AlertItem)
      → let n = run listing es (new_net server) in IsHonest n.server n.page.alerts
  unfolding initial
  run-IsHonest es server =
      (run-Inv es (new_net server) (record { page = tt; polled = tt; answered = tt })).page

module _ (listing : List AlertItem → List AlertItem) where
  -- A poll whose answer the server has made before it acknowledges an alert and which arrives after the
  -- acknowledgement shows the alert as it was before, although the server has it acknowledged by then;
  -- the next poll that nothing overtakes shows what the server has.
  pub overtaken_poll :
      (id : String) (server : List AlertItem) (page : Page)
      → knows server id ≡ true
      → let n =
          run listing
            (poll_starts ∷ server_lists ∷ clicks id ∷ answers 0 ∷ arrives 0 ∷ poll_arrives 0 ∷ [])
            (record (new_net server) { page = page }) in
        (n.page.alerts ≡ listing server)
        × (acked n.server id ≡ true)
        × ((run listing (poll_starts ∷ server_lists ∷ poll_arrives 0 ∷ []) n).page.alerts
            ≡ listing (map (mark id) server))
  unfolding run happen fetch_alerts fetch_starts handle_acknowledge
  overtaken_poll id server page known = rw known (refl, knows-acked id server known, refl)
