-- ===== src/Alerts/Polling.antt =====
-- The polls and the acknowledgements of frontend/dashboard/src/pages/AlertsPage.tsx against a server: what
-- is under way between them arrives in any order. The page's half is `polls`, `arrive_poll`, `asks` and
-- `arrive_ack`. The server's half, `lists`, `answer_ack` and `raise_alert`, is what is assumed of the
-- backend: it lists some of its alerts, acknowledges those that it has and refuses the others, may raise
-- new ones, and has none deleted while the page is open, although its api has a request for that.
use surakshanet.Base.{
  drop_at, ℕ, ◌≡◌, String, Bool, true, not, ◌&&◌, ◌||◌, Option, none, some, List, [], ◌∷◌, ◌++◌,
  map, str_eq, if◌then◌else◌, any, get_elem?, All,
}
use surakshanet.Alerts.{
  AlertItem, Page, Fetched, array, failed, initial, fetch_starts, fetch_alerts, mark,
  handle_acknowledge,
}

pub record Net : Type 0 where
  pub server : List AlertItem
  pub page : Page
  -- the answers to polls, and the requests to acknowledge and the answers to them, that are under way
  pub polled : List Fetched
  pub asked : List String
  pub answered : List (String × Bool)

pub data Event : Type 0 where
  -- the interval fires, or the page is mounted
  poll_starts server_lists poll_fails : Event
  -- what arrives is given by its place among what is under way
  poll_arrives answers arrives : ℕ → Event
  clicks : String → Event
  raises : AlertItem → Event

-- Whether the server has an alert with an id, and whether one that is acknowledged.
abbrev pub knows : List AlertItem → String → Bool
knows server id = any (λ a. str_eq a.id id) server

abbrev pub acked : List AlertItem → String → Bool
acked server id = any (λ a. str_eq a.id id && a.is_acknowledged) server

abbrev polls : Net → Net
polls n = record n { page = fetch_starts n.page }

abbrev asks : String → Net → Net
asks id n = record n { asked = n.asked ++ id ∷ [] }

abbrev raise_alert : AlertItem → Net → Net
raise_alert a n = record n { server = a ∷ n.server }

module _ (listing : List AlertItem → List AlertItem) where
  abbrev lists : Net → Net
  lists n = record n { polled = n.polled ++ array (listing n.server) ∷ [] }

  abbrev arrive_poll : Option Fetched → ℕ → Net → Net
  arrive_poll none i n = n
  arrive_poll (some answer) i n = record n {
    page = fetch_alerts answer n.page;
    polled = drop_at i n.polled;
  }

  -- The server acknowledges an alert that it has, and refuses one that it has not.
  abbrev answer_ack : Option String → ℕ → Net → Net
  answer_ack none i n = n
  answer_ack (some id) i n = record n {
    server = if knows n.server id then map (mark id) n.server else n.server;
    asked = drop_at i n.asked;
    answered = n.answered ++ (id, knows n.server id) ∷ [];
  }

  abbrev arrive_ack : Option (String × Bool) → ℕ → Net → Net
  arrive_ack none i n = n
  arrive_ack (some (id, accepted)) i n = record n {
    page = handle_acknowledge id accepted n.page;
    answered = drop_at i n.answered;
  }

  unfoldable pub happen : Event → Net → Net
  happen poll_starts n = polls n
  happen server_lists n = lists n
  happen poll_fails n = record n { polled = n.polled ++ failed ∷ [] }
  happen (poll_arrives i) n = arrive_poll (get_elem? n.polled i) i n
  happen (clicks id) n = asks id n
  happen (answers i) n = answer_ack (get_elem? n.asked i) i n
  happen (arrives i) n = arrive_ack (get_elem? n.answered i) i n
  happen (raises a) n = raise_alert a n

  unfoldable pub run : List Event → Net → Net
  run [] n = n
  run (e ∷ es) n = run es (happen e n)

-- An alert is shown as acknowledged only where the server has it so.
abbrev pub honest : List AlertItem → AlertItem → Bool
honest server a = not a.is_acknowledged || acked server a.id

abbrev pub IsHonest : List AlertItem → List AlertItem → Type 0
IsHonest server alerts = All (λ a. honest server a ≡ true) alerts

-- The page when it is mounted, with what the server has.
abbrev pub new_net : List AlertItem → Net
new_net server = record { server = server; page = initial; polled = []; asked = []; answered = [] }
