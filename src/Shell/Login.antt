-- ===== src/Shell/Login.antt =====
-- frontend/dashboard/src/pages/LoginPage.tsx over the session of store/authStore.ts. The timeouts and
-- the answers to the login requests come as events of their own, the answers in any order.
pub mod View
pub mod Settled
use surakshanet.Base.{
  ℕ, zero, suc, String, Bool, true, false, not, ◌&&◌, Option, none, some, List, [], ◌∷◌, ◌++◌,
  str_eq, if◌then◌else◌, get_elem?, drop_at,
}
use surakshanet.Stores.Session.{Session, LoginData, login_succeeds, login_fails}
use surakshanet.Shell.Routes.{home}

pub record Page : Type 0 where
  pub identifier : String
  pub password : String
  pub is_loading : Bool
  -- the submits that wait for their 1.2 seconds, with what they were submitted with, and the clicks on
  -- demo access that wait for theirs
  pub submits : List (String × String)
  -- the login requests that are under way, in the order in which they were sent
  pub requests : List (String × String)
  pub demos : ℕ
  pub session : Session
  -- where the page has navigated to
  pub location : Option (List String)

abbrev pub initial : Session → Page
initial session = record {
  identifier = "";
  password = "";
  is_loading = false;
  submits = [];
  requests = [];
  demos = 0;
  session = session;
  location = none;
}

unfoldable pub handle_submit : Page → Page
handle_submit p = record p {
  is_loading = true;
  submits = p.submits ++ ((p.identifier, p.password) ∷ []);
}

-- The button is disabled while it loads, and both fields are required.
unfoldable pub submit_click : Page → Page
submit_click p =
    if not p.is_loading && not (str_eq p.identifier "") && not (str_eq p.password "")
    then handle_submit p
    else p

unfoldable pub handle_demo_access : Page → Page
handle_demo_access p = record p { identifier = "OP-ADMIN"; password = "demo"; demos = suc p.demos }

-- A hundred milliseconds later the form is sent a submit event, which no check of the form holds up.
unfoldable pub demo_fires : Page → Page
demo_fires p = elim p.demos [ zero ↦ p | suc n ↦ handle_submit (record p { demos = n }) ]

-- What `login` does to the session for the answer to its request, none for an error, and whether it
-- then returns or throws.
pub data LoginResult : Type 0 where
  returns throws : Session → LoginResult

unfoldable pub login : Option LoginData → Session → LoginResult
login none s = throws (login_fails s)
login (some answer) s = returns (login_succeeds answer s)

-- The timeout of the earliest submit, which sends the login request.
unfoldable pub submit_fires : Page → Page
submit_fires p = elim p.submits [
  | [] ↦ p
  | submit ∷ rest ↦ record p { submits = rest; requests = p.requests ++ submit ∷ [] }
]

unfoldable pub navigate : List String → Page → Page
navigate path p = record p { location = some path }

-- What follows the `await` of `login`: the rest of the `try` block, or the `catch` block.
unfoldable pub after_login : LoginResult → Page → Page
after_login (returns s) p = navigate home (record p { session = s })
after_login (throws s) p = navigate home (record p { session = s })

-- The request `i` of those under way is answered; the `finally` block comes last.
unfoldable pub request_answered : ℕ → Option LoginData → Page → Page
request_answered i answer p = elim (get_elem? p.requests i) [
  | none ↦ p
  | some request ↦
      let q = record p { requests = drop_at i p.requests } in
      record (after_login (login answer p.session) q) { is_loading = false }
]

pub data Event : Type 0 where
  types_identifier types_password : String → Event
  submits accesses_demo demo_timeout submit_timeout : Event
  answered : ℕ → Option LoginData → Event

unfoldable pub step : Page → Event → Page
step p (types_identifier text) = record p { identifier = text }
step p (types_password text) = record p { password = text }
step p submits = submit_click p
step p accesses_demo = handle_demo_access p
step p demo_timeout = demo_fires p
step p submit_timeout = submit_fires p
step p (answered i answer) = request_answered i answer p

unfoldable pub run : Page → List Event → Page
run p [] = p
run p (e ∷ es) = run (step p e) es
