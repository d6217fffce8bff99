-- ===== src/Lib.antt =====
-- Surakshanet, a traffic operations dashboard: the TypeScript client under frontend/dashboard/src.
--
-- The client is a page per task on top of two stores, one WebSocket service and one table of
-- requests. The service keeps a socket per channel, with a heartbeat and reconnects, and hands
-- each message to the subscribers of its channel; the pages subscribe to it. The auth store holds
-- the session and mirrors its token in the browser's storage; the interceptors of the requests
-- read it and end the session on a 401. The traffic store holds junctions, their states and
-- alerts, which several pages show.
--
-- Files, each with the code it is about:
--   Realtime       services/websocket.ts. State and Backoff are the fields and the delays, Service
--                  the methods and handlers under the names of the source; Steps is any sequence
--                  of events (calls of the pages, reports of the browser, timeouts, pings); the
--                  other children prove what their names say of it.
--   Stores         store/authStore.ts with the interceptors of services/api.ts (Session),
--                  store/trafficStore.ts (Traffic) and types/index.ts (Types); Session/Refusals is
--                  about the requests whose refusal ends the session. No code of the dashboard
--                  calls loadFromStorage or setUser; they are modelled as methods of the store.
--   Requests       the table of services/api.ts: a call and the request it sends.
--   Emergency      pages/EmergencyPage.tsx; Corridor relates the list of junctions to the position
--                  of the vehicle, Steps is the page over time.
--   Alerts         pages/AlertsPage.tsx; Counts are the figures at its top, Polling its polls and
--                  acknowledgements against a server, where what is under way arrives in any order,
--                  Offers what the page offers between two fetches.
--   TrafficMap     pages/TrafficMapPage.tsx; Data its records, Pulse its clock, Feed the page over
--                  time.
--   Signals        pages/SignalControlPage.tsx.
--   Junctions      pages/JunctionsPage.tsx; Registry is the list made of the store's junctions.
--   Detail         pages/JunctionDetailPage.tsx.
--   Routing        pages/RoutingPage.tsx.
--   Visits         what the pages that listen do with the WebSocket service when they are mounted
--                  and left; Reach follows a message from an open socket to the page, over the events of the
--                  service in between.
--   Command        components/CommandCenter: LiveIncidents (Incidents), SignalControlInteractive
--                  (Optimizer), GlobalEmergencyModal (Modal), the data of CityTrafficCanvas with
--                  IntersectionModal (Intersections), its vehicles, its mouse and its drawing
--                  (Canvas, where Painting is the drawing context, Shapes what a frame is to paint
--                  and Frame that it does),
--                  ComputerVisionFeed (Camera), AIInsightsTicker and the carousel of
--                  pages/StudioHomePage.tsx (Rotation); Deck is pages/CommandCenterPage.tsx, which
--                  holds them, with its markup (View) and that of AnalyticsDashboard.tsx (Dashboard).
--   Forecast       pages/ForecastingPage.tsx.
--   Markup         what a component shows and offers, as the sequence of its texts, icons and
--                  controls; the children View, Window, Bars and Studio of the other parts are their
--                  markup, and Life, Dispatch, Offers, Cards and Windows what follows from the
--                  buttons that it offers.
--   Shell          App.tsx (Routes), components/Layout (Links, Destinations, and Frame, its markup),
--                  pages/LoginPage.tsx (Login, and Login/Settled over time), the error boundary and the badges (Common).
--   Pages          the smaller pages: SimulationPage, EdgeDevicesPage, UserManagementPage,
--                  SettingsPage, AnalyticsPage, EmissionsPage and LandingPage.
--   Studio         components/Studio: Studio3DSphere.tsx (the tiles of its shell in Studio and Shell,
--                  its pointer, ball and frames in Sphere and Target), StudioRightTotem3D.tsx (Totem),
--                  what both are built of (Scene) and ask of the browser, each and side by side
--                  (Stage), and StudioRightPanel.tsx (Panel).
--   Engine         hooks/useTrafficSimulationEngine.ts: Metrics, Feed and Phase.
--   Base           tests on numbers and texts, lists measured by native numbers, and the
--                  association lists that stand for Map and for objects with string keys.
--
-- State is a record, an operation a function from state to state, and a component over time a run of
-- a list of events: every order of them is a list. An asynchronous handler is split where it waits,
-- and what the server answers, or that it fails, is an argument. Timers and intervals are
-- entries of the state, with an event for each time that one fires. Every function is by recursion
-- on a list or a number. The one loop that is run on fuel is that of the lines of the drawn grid, with
-- one unit for each pixel, beyond which more fuel changes nothing (Command/Canvas/Drawing). The names
-- of the source are kept, in snake case.
--
-- Numbers are natural numbers. Where the source has decimals they are scaled: tenths of km/h in
-- TrafficMap, thousandths in Forecast, and a draw of Math.random as a numerator over a fixed
-- resolution in Realtime/Backoff, Engine and Command, so that rounding is written out; the distance
-- of a tile from the ball in Studio is one over that resolution, in thousandths, and the turn of the
-- ring is in thousandths. The
-- distance of the mouse from a node is compared by its square, in the rectangle of the canvas
-- stretched as the handlers of the source stretch it. Where a subtraction stops at 0 the
-- source clamps above it. Coordinates, rewards and other floating-point fields that are only stored
-- are of a type that is a parameter.
--
-- Parameters stand for what is not in the source: JSON.parse, whether the WebSocket constructor
-- throws, the subscribers' behaviour, the text of a number, trim and the change of case, and the
-- answers of the server. The scenes of the studio take doubles and the operations of three.js as a
-- record (Studio.Space), with what a Float32Array keeps of them; nothing is assumed of either.
--
-- Not modelled: how the markup is nested, and the class names that do not depend on the state;
-- console output, and toasts but for those that Signals and Detail report; what recharts, leaflet and
-- three.js draw; the Python backend, of which Alerts/Polling assumes how it answers about alerts and that
-- nothing deletes them meanwhile; the machine learning, the simulation bridge and the infrastructure.
pub mod Base
pub mod Markup
pub mod Realtime
pub mod Stores
pub mod Requests
pub mod Emergency
pub mod Alerts
pub mod TrafficMap
pub mod Signals
pub mod Junctions
pub mod Detail
pub mod Routing
pub mod Command
pub mod Shell
pub mod Forecast
pub mod Visits
pub mod Engine
pub mod Pages
pub mod Studio
