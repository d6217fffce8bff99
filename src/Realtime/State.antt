-- ===== src/Realtime/State.antt =====
-- The state of `WebSocketService` (frontend/dashboard/src/services/websocket.ts), and of the browser
-- objects that it holds: sockets, timeouts and intervals, each by a number that is never used again.
use surakshanet.Base.{ℕ, String, Bool, Option, List, []}
use surakshanet.Base.Dict
use surakshanet.Base.Dict.{Dict}

-- `WebSocket.readyState`.
pub data ReadyState : Type 0 where
  connecting opened closing closed : ReadyState

pub record Link : Type 0 where
  pub id : ℕ
  pub channel : String
  pub url : String
  pub ready : ReadyState

-- A pending `window.setTimeout(() => this.connect(channel), delay)`.
pub record Retry : Type 0 where
  pub id : ℕ
  pub channel : String
  pub delay_ms : ℕ

-- An active `window.setInterval` of `startHeartbeat(channel, ws)`.
pub record Beat : Type 0 where
  pub id : ℕ
  pub channel : String
  pub socket : ℕ

pub record Service : Type 0 where
  -- the fields of the class
  pub sockets : Dict ℕ
  pub callbacks : Dict (List ℕ)
  pub reconnect_timeouts : Dict ℕ
  pub reconnect_attempts : Dict ℕ
  pub ping_intervals : Dict ℕ
  -- the browser's objects
  pub links : List Link
  pub retries : List Retry
  pub beats : List Beat
  pub next_id : ℕ
  pub sent : List (ℕ × String)

unfoldable pub new : Service
new = record {
  sockets = Dict.empty;
  callbacks = Dict.empty;
  reconnect_timeouts = Dict.empty;
  reconnect_attempts = Dict.empty;
  ping_intervals = Dict.empty;
  links = [];
  retries = [];
  beats = [];
  next_id = 1;
  sent = [];
}

-- What the page's location, the build and the browser decide. `parse_url` is
-- `new URL(apiUrl, window.location.href)`, with the protocol and the host of the result, and `none`
-- where it throws; `constructs` says whether `new WebSocket(url)` returns without throwing.
pub record Browser : Type 0 where
  pub protocol : String
  pub host : String
  pub api_url : Option String
  pub parse_url : String → Option (String × String)
  pub constructs : String → Bool
