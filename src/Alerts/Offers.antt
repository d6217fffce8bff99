-- ===== src/Alerts/Offers.antt =====
-- The alerts that frontend/dashboard/src/pages/AlertsPage.tsx offers to acknowledge.
use surakshanet.Base.{
  ℕ, ◌≡◌, refl, String, Bool, true, false, not, List, [], ◌∷◌, ◌++◌, map, filter, any, arith,
  str_eq, if◌then◌else◌, ap, ◌∙◌,
}
use surakshanet.Markup.{Item, button, text, offered, offered-append, offered-marks, each}
use surakshanet.Alerts
use surakshanet.Alerts.{
  fetch_alerts, nothing, failed, AlertItem, Page, filtered_alerts, shows, mark, handle_acknowledge,
}
use surakshanet.Alerts.View.{
  Click, refreshes, toggles, filters, acknowledges, header, controls, card, card_marks, cards, view,
}

-- The ids of the alerts that can be acknowledged with some clicks.
abbrev pub acknowledged_by : Click → List String
acknowledged_by refreshes = []
acknowledged_by toggles = []
acknowledged_by (filters f) = []
acknowledged_by (acknowledges id) = id ∷ []

abbrev pub to_acknowledge : List Click → List String
to_acknowledge [] = []
to_acknowledge (c ∷ cs) = acknowledged_by c ++ to_acknowledge cs

-- The ids of the open alerts among some.
abbrev pub open_ids : List AlertItem → List String
open_ids [] = []
open_ids (a ∷ alerts) = if a.is_acknowledged then open_ids alerts else a.id ∷ open_ids alerts

module _ (short local : String → String) where
  acknowledge-card :
      (a : AlertItem) (is : List (Item Click))
      → to_acknowledge (offered (card short local a ++ is)) ≡ (
          if a.is_acknowledged
          then to_acknowledge (offered is)
          else a.id ∷ to_acknowledge (offered is))
  unfolding card offered
  acknowledge-card a is =
      ap to_acknowledge (
        offered-append (card short local a) is
        ∙ ap (λ cs. cs ++ offered is)
            (offered-marks (card_marks short local a) (last_button a.is_acknowledged)))
      ∙ by_cases a.is_acknowledged
    where
      last_button : Bool → List (Item Click)
      last_button b =
          if b then [] else button false (acknowledges a.id) (text "Acknowledge" ∷ []) ∷ []

      by_cases :
          (b : Bool)
          → to_acknowledge (offered (last_button b) ++ offered is)
            ≡ (if b then to_acknowledge (offered is) else a.id ∷ to_acknowledge (offered is))
      by_cases true = refl
      by_cases false = refl

  acknowledge-cards :
      (alerts : List AlertItem)
      → to_acknowledge (offered (each (card short local) alerts)) ≡ open_ids alerts
  unfolding offered
  acknowledge-cards [] = refl
  acknowledge-cards (a ∷ alerts) =
      acknowledge-card a (each (card short local) alerts)
      ∙ ap (λ ids. if a.is_acknowledged then ids else a.id ∷ ids) (acknowledge-cards alerts)

  acknowledge-list :
      (alerts : List AlertItem)
      → to_acknowledge (offered (cards short local alerts)) ≡ open_ids alerts
  unfolding cards offered
  acknowledge-list [] = refl
  acknowledge-list (a ∷ alerts) = acknowledge-cards (a ∷ alerts)

  -- The ids that the page offers to acknowledge are those of the open alerts that it shows, in order.
  acknowledge-view :
      (to_text : ℕ → String) (p : Page)
      → to_acknowledge (offered (view to_text short local p)) ≡ open_ids (filtered_alerts p)
  unfolding view header controls offered
  acknowledge-view to_text p = acknowledge-list (filtered_alerts p)

-- What happens to the page between two lists from the server: clicks on the filters and on the
-- checkbox, answers to acknowledgements, and fetches that start or bring no list.
pub data Change : Type 0 where
  wants : String → Change
  flips fetch_starts fetch_brings_nothing fetch_fails : Change
  answered : String → Bool → Change

unfoldable pub change : Page → Change → Page
change p (wants f) = record p { filter = f }
change p flips = record p { show_acknowledged = not p.show_acknowledged }
change p fetch_starts = Alerts.fetch_starts p
change p fetch_brings_nothing = fetch_alerts nothing p
change p fetch_fails = fetch_alerts failed p
change p (answered id accepted) = handle_acknowledge id accepted p

abbrev pub changes : Page → List Change → Page
changes p [] = p
changes p (c ∷ cs) = changes (change p c) cs

-- Whether an id is among some.
abbrev pub among : String → List String → Bool
among id = any (λ i. str_eq i id)

marked_closed :
    (id : String) (alerts : List AlertItem) → among id (open_ids (map (mark id) alerts)) ≡ false
marked_closed id [] = refl
marked_closed id (a ∷ alerts) = ground (arith, marked_closed id alerts)

still_closed :
    (id other : String) (alerts : List AlertItem)
    → among id (open_ids alerts) ≡ false
    → among id (open_ids (map (mark other) alerts)) ≡ false
still_closed id other [] h = refl
still_closed id other (a ∷ alerts) h = ground (arith, still_closed id other alerts)

filtered_closed :
    (id wanted : String) (show : Bool) (alerts : List AlertItem)
    → among id (open_ids alerts) ≡ false
    → among id (open_ids (filter (shows wanted show) alerts)) ≡ false
filtered_closed id wanted show [] h = refl
filtered_closed id wanted show (a ∷ alerts) h =
    ground (arith, filtered_closed id wanted show alerts)

change_closed :
    (id : String) (p : Page) (c : Change)
    → among id (open_ids p.alerts) ≡ false
    → among id (open_ids (change p c).alerts) ≡ false
unfolding change fetch_alerts Alerts.fetch_starts handle_acknowledge
change_closed id p (wants f) h = h
change_closed id p flips h = h
change_closed id p fetch_starts h = h
change_closed id p fetch_brings_nothing h = h
change_closed id p fetch_fails h = h
change_closed id p (answered other true) h = still_closed id other p.alerts h
change_closed id p (answered other false) h = h

changes_closed :
    (id : String) (p : Page) (cs : List Change)
    → among id (open_ids p.alerts) ≡ false
    → among id (open_ids (changes p cs).alerts) ≡ false
changes_closed id p [] h = h
changes_closed id p (c ∷ cs) h = changes_closed id (change p c) cs (change_closed id p c h)

-- The page offers to acknowledge exactly the open alerts that it shows, in their order; and once the
-- server has accepted the acknowledgement of an alert, the page does not offer it until a fetch brings a
-- list, whatever is filtered, shown, answered, or fetched in vain in the meantime.
pub acknowledge-offers :
    (to_text : ℕ → String) (short local : String → String) (p : Page) (id : String)
    (cs : List Change)
    → let q = changes (handle_acknowledge id true p) cs in
      (to_acknowledge (offered (view to_text short local p)) ≡ open_ids (filtered_alerts p))
      × (among id (to_acknowledge (offered (view to_text short local q))) ≡ false)
unfolding filtered_alerts handle_acknowledge
acknowledge-offers to_text short local p id cs =
    let q : Page = changes (handle_acknowledge id true p) cs in
    let closed' = changes_closed id (handle_acknowledge id true p) cs (marked_closed id p.alerts) in
    (
      acknowledge-view short local to_text p,
      ap (among id) (acknowledge-view short local to_text q)
          ∙ filtered_closed id q.filter q.show_acknowledged q.alerts closed',
    )
