-- ===== src/Stores/Session/Steps.antt =====
-- The session over time: the calls of the store's methods and the answers of the requests.
use surakshanet.Base.{ℕ, ◌-◌, String, Option, List, [], ◌∷◌, ◌==◌, if◌then◌else◌}
use surakshanet.Stores.Types.{User}
use surakshanet.Stores.Session.{
  Session, LoginData, signed_out, login_succeeds, login_fails, logout, set_user, load_from_storage,
  me_succeeds, me_fails, on_error,
}

pub data Event : Type 0 where
  logs_in : LoginData → Event
  -- the status of the answer, none where there was no answer
  login_refused : Option ℕ → Event
  logs_out : Event
  sets_user : Option User → Event
  loads : Event
  -- the answer of a `getMe` request, which must be under way
  me_answers : Option User → Event
  me_refused : Option ℕ → Event
  -- any other request that fails, with its status and url
  refused : Option ℕ → Option String → Event
  -- the page is loaded anew; the storage stays
  reloads : Event

-- One `getMe` request fewer.
abbrev pub answered : Session → Session
answered s = record s { pending = s.pending - 1 }

unfoldable pub step : Session → Event → Session
step s (logs_in data') = login_succeeds data' s
step s (login_refused status) = login_fails (on_error status (Option.some "/auth/login") s)
step s logs_out = logout s
step s (sets_user user) = set_user user s
step s loads = load_from_storage s
step s (me_answers user) = if s.pending == 0 then s else me_succeeds user (answered s)
step s (me_refused status) =
    if s.pending == 0 then s else me_fails (on_error status (Option.some "/auth/me") (answered s))
step s (refused status url) = on_error status url s
step s reloads = record s { auth = signed_out; pending = 0 }

unfoldable pub run : Session → List Event → Session
run s [] = s
run s (e ∷ es) = run (step s e) es
