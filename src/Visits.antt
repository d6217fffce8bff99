-- ===== src/Visits.antt =====
-- The pages as subscribers of the WebSocket service: what each of pages/TrafficMapPage.tsx,
-- SignalControlPage.tsx and EmergencyPage.tsx (of frontend/dashboard/src) does with the service when it
-- is mounted and when it is left. A callback is a number, new for each visit.
pub mod Restored
pub mod Reach
mod Tests
use surakshanet.Base.{ℕ, String, List, [], ◌∷◌}
use surakshanet.Realtime.State.{Service, Browser}
use surakshanet.Realtime.Service.{connect, on_message, unsubscribe}

-- A channel and the callback of a page on it.
abbrev pub Subscription : Type 0
Subscription = String × ℕ

abbrev pub connect_every : Browser → List Subscription → Service → Service
connect_every b [] s = s
connect_every b (p ∷ ps) s = connect_every b ps (connect b p.0 s)

abbrev pub listen_every : Browser → List Subscription → Service → Service
listen_every b [] s = s
listen_every b (p ∷ ps) s = listen_every b ps (on_message b p.0 p.1 s)

-- The effect of a page: it connects its channels, and then listens on them.
unfoldable pub mount : Browser → List Subscription → Service → Service
mount b ps s = listen_every b ps (connect_every b ps s)

-- The function that the effect returns.
unfoldable pub leave : List Subscription → Service → Service
leave [] s = s
leave (p ∷ ps) s = leave ps (unsubscribe p.0 p.1 s)

-- The subscriptions of the three pages.
abbrev pub map_page : ℕ → ℕ → List Subscription
map_page traffic signals = ("traffic", traffic) ∷ ("signals", signals) ∷ []

abbrev pub signal_page : ℕ → List Subscription
signal_page signals = ("signals", signals) ∷ []

abbrev pub emergency_page : ℕ → List Subscription
emergency_page emergency = ("emergency", emergency) ∷ []
